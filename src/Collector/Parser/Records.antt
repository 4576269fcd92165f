-- ===== src/Collector/Parser/Records.antt =====
-- collector/event_parser.py: the two parsers on records made of given values.
use trace_pilot.Collector.Layout.{little, big, from_memory, from_little, inet_ntoa, sizeof}
use trace_pilot.Prelude.{
  ℕ, ◌≡◌, refl, [], ◌∷◌, List, ◌++◌, length, take-append_length, drop-append_length, ◌<◌, ◌^◌, All,
  arith, Text, ◌+◌, ◌*◌, length-append, true, eqb_iff, ◌∙◌, ap,
}
use trace_pilot.Collector.Layout.{
  to_bytes, from_buffer_copy, ByteOrder, before_nul, Platform, RawEvent,
}
use trace_pilot.Collector.Parser.Bytes.{
  length-to_bytes, from_memory-to_bytes, ntohs-from_memory, to_bytes-from_memory,
}
use trace_pilot.Collector.Parser.{
  api_event, ApiEvent, decode_process_name, kernel_time_to_datetime, codes, parse_ipv4_event,
  parse_ipv6_event, read_ipv4_event, read_ipv6_event, host_ip, parsed, eqb,
}

-- The values of the fields of a record; the address and the port are in network order.
pub record Connection : Type 0 where
  pub timestamp_ns : ℕ
  pub duration_ns : ℕ
  pub pid : ℕ
  pub uid : ℕ
  pub ip_bytes : List ℕ
  pub port_high : ℕ
  pub port_low : ℕ
  pub comm : List ℕ

-- The numbers fit their fields.
pub record IsConnection (width : ℕ) (c : Connection) : Type 0 where
  pub timestamp_fits : c.timestamp_ns < 256 ^ 8
  pub duration_fits : c.duration_ns < 256 ^ 8
  pub pid_fits : c.pid < 256 ^ 4
  pub uid_fits : c.uid < 256 ^ 4
  pub address_width : length c.ip_bytes ≡ width
  pub address_bytes : All (λ b. b < 256) c.ip_bytes
  pub high_fits : c.port_high < 256
  pub low_fits : c.port_low < 256
  pub comm_width : length c.comm ≡ 16

-- The structure in memory, as the probe gives it to `perf_submit`, with the bytes of its tail
-- padding. What a callback gets may be longer: see Collector.Buffer.Samples.
unfoldable pub record_bytes : ByteOrder → ℕ → Connection → List ℕ → List ℕ
unfolding to_bytes
record_bytes order version c padding =
    to_bytes order 8 c.timestamp_ns
    ++ (to_bytes order 8 c.duration_ns
        ++ (to_bytes order 4 c.pid
            ++ (to_bytes order 4 c.uid
                ++ (c.ip_bytes
                    ++ ((c.port_high ∷ c.port_low ∷ [])
                        ++ ((version ∷ []) ++ (c.comm ++ padding)))))))

module _ (width : ℕ) (a b c d e f g h padding : List ℕ) where
  from_buffer_copy-append :
      length a ≡ 8
      → length b ≡ 8
      → length c ≡ 4
      → length d ≡ 4
      → length e ≡ width
      → length f ≡ 2
      → length g ≡ 1
      → length h ≡ 16
      → from_buffer_copy width (a ++ (b ++ (c ++ (d ++ (e ++ (f ++ (g ++ (h ++ padding))))))))
        ≡ record {
          timestamp_ns = a;
          duration_ns = b;
          pid = c;
          uid = d;
          destination_ip = e;
          destination_port = f;
          ip_version = g;
          process_name = h;
        }
  unfolding from_buffer_copy
  from_buffer_copy-append ha hb hc hd he hf hg hh =
      rw
        (
          take-append_length 8 a _ ha,
          drop-append_length 8 a _ ha,
          take-append_length 8 b _ hb,
          drop-append_length 8 b _ hb,
          take-append_length 4 c _ hc,
          drop-append_length 4 c _ hc,
          take-append_length 4 d _ hd,
          drop-append_length 4 d _ hd,
          take-append_length width e _ he,
          drop-append_length width e _ he,
          take-append_length 2 f _ hf,
          drop-append_length 2 f _ hf,
          take-append_length 1 g _ hg,
          drop-append_length 1 g _ hg,
          take-append_length 16 h padding hh,
        )
        refl

before_nul-before_nul : (bs : List ℕ) → before_nul (before_nul bs) ≡ before_nul bs
unfolding before_nul
before_nul-before_nul [] = refl
before_nul-before_nul (b ∷ bs) = ground (arith, before_nul-before_nul bs)

from_memory-one_byte :
    (order : ByteOrder) (version : ℕ) → from_memory order (version ∷ []) ≡ version
unfolding from_memory from_little
from_memory-one_byte little version = omega arith
from_memory-one_byte big version = omega arith

module _ (m : Platform) (wall_clock_offset_ns : ℕ) (c : Connection) (padding : List ℕ) where
  -- What a record says, with its address as text.
  abbrev pub reported : ℕ → Text → ApiEvent
  reported version destination_ip = record {
    timestamp =
        m.isoformat
          (m.fromtimestamp (m.true_div (wall_clock_offset_ns + c.timestamp_ns) 1_000_000_000));
    pid = c.pid;
    process_name = m.decode (before_nul c.comm);
    uid = c.uid;
    destination_ip = destination_ip;
    destination_port = 256 * c.port_high + c.port_low;
    ip_version = version;
    duration_ms = m.true_div c.duration_ns 1_000_000;
    source = codes "ebpf";
  }

  -- The structure that a record is read as.
  abbrev fields_of : ℕ → RawEvent
  fields_of version = record {
    timestamp_ns = to_bytes m.byteorder 8 c.timestamp_ns;
    duration_ns = to_bytes m.byteorder 8 c.duration_ns;
    pid = to_bytes m.byteorder 4 c.pid;
    uid = to_bytes m.byteorder 4 c.uid;
    destination_ip = c.ip_bytes;
    destination_port = c.port_high ∷ c.port_low ∷ [];
    ip_version = version ∷ [];
    process_name = c.comm;
  }

  read-record_bytes :
      (width version : ℕ)
      → IsConnection width c
      → from_buffer_copy width (record_bytes m.byteorder version c padding) ≡ fields_of version
  unfolding record_bytes
  read-record_bytes width version h =
      from_buffer_copy-append width (to_bytes m.byteorder 8 c.timestamp_ns)
        (to_bytes m.byteorder 8 c.duration_ns) (to_bytes m.byteorder 4 c.pid)
        (to_bytes m.byteorder 4 c.uid) c.ip_bytes (c.port_high ∷ c.port_low ∷ []) (version ∷ [])
        c.comm padding (length-to_bytes m.byteorder 8 c.timestamp_ns)
        (length-to_bytes m.byteorder 8 c.duration_ns) (length-to_bytes m.byteorder 4 c.pid)
        (length-to_bytes m.byteorder 4 c.uid) h.address_width refl refl h.comm_width

  length-record_bytes :
      (width version : ℕ)
      → IsConnection width c
      → length (record_bytes m.byteorder version c padding) ≡ 43 + width + length padding
  unfolding record_bytes
  length-record_bytes width version h =
      simp (length-append, length-to_bytes, h.address_width, h.comm_width) (omega arith)

  api_event-fields_of :
      (width version : ℕ) (ip : Text)
      → IsConnection width c
      → api_event m (fields_of version) wall_clock_offset_ns ip version ≡ reported version ip
  unfolding api_event decode_process_name kernel_time_to_datetime
  api_event-fields_of width version ip h =
      rw
        (
          from_memory-to_bytes m.byteorder 8 c.timestamp_ns h.timestamp_fits,
          from_memory-to_bytes m.byteorder 8 c.duration_ns h.duration_fits,
          from_memory-to_bytes m.byteorder 4 c.pid h.pid_fits,
          from_memory-to_bytes m.byteorder 4 c.uid h.uid_fits,
          ntohs-from_memory m.byteorder c.port_high c.port_low h.high_fits h.low_fits,
          decode_process_name,
          kernel_time_to_datetime,
          before_nul-before_nul c.comm,
        )
        refl

  host_ip-fields_of : IsConnection 4 c → host_ip m (fields_of 4) ≡ inet_ntoa c.ip_bytes
  unfolding host_ip
  host_ip-fields_of h =
      ap inet_ntoa (to_bytes-from_memory m.byteorder 4 c.ip_bytes h.address_width h.address_bytes)

  read_ipv4_event-fields_of :
      IsConnection 4 c
      → read_ipv4_event m (fields_of 4) wall_clock_offset_ns
        ≡ parsed (reported 4 (inet_ntoa c.ip_bytes))
  unfolding read_ipv4_event
  read_ipv4_event-fields_of h =
      rw (from_memory-one_byte m.byteorder 4, host_ip-fields_of h)
        (ap parsed (api_event-fields_of 4 4 (inet_ntoa c.ip_bytes) h))

  read_ipv6_event-fields_of :
      IsConnection 16 c
      → read_ipv6_event m (fields_of 6) wall_clock_offset_ns
        ≡ parsed (reported 6 (m.inet_ntop c.ip_bytes))
  unfolding read_ipv6_event
  read_ipv6_event-fields_of h =
      rw (from_memory-one_byte m.byteorder 6)
        (ap parsed (api_event-fields_of 16 6 (m.inet_ntop c.ip_bytes) h))

  -- A record of 48 bytes that says version 4 is read as what it was made of, with whatever byte
  -- order its machine has: the numbers, the port from its bytes in network order, the dotted text
  -- of the address's bytes in network order, and the name up to its first NUL.
  pub parse_ipv4_event-record_bytes :
      IsConnection 4 c
      → length padding ≡ 1
      → parse_ipv4_event m (record_bytes m.byteorder 4 c padding) wall_clock_offset_ns
        ≡ parsed (reported 4 (inet_ntoa c.ip_bytes))
  unfolding parse_ipv4_event
  parse_ipv4_event-record_bytes h e =
      let size : eqb (length (record_bytes m.byteorder 4 c padding)) (sizeof 4) ≡ true =
        (eqb_iff _ _).1 (length-record_bytes 4 4 h ∙ omega arith) in
      rw size (
        ap (λ event. read_ipv4_event m event wall_clock_offset_ns) (read-record_bytes 4 4 h)
        ∙ read_ipv4_event-fields_of h)

  -- A record of 64 bytes that says version 6 is read as what it was made of, with whatever byte
  -- order its machine has; its address is the C library's text of the bytes as they are.
  pub parse_ipv6_event-record_bytes :
      IsConnection 16 c
      → length padding ≡ 5
      → parse_ipv6_event m (record_bytes m.byteorder 6 c padding) wall_clock_offset_ns
        ≡ parsed (reported 6 (m.inet_ntop c.ip_bytes))
  unfolding parse_ipv6_event
  parse_ipv6_event-record_bytes h e =
      let size : eqb (length (record_bytes m.byteorder 6 c padding)) (sizeof 16) ≡ true =
        (eqb_iff _ _).1 (length-record_bytes 16 6 h ∙ omega arith) in
      rw size (
        ap (λ event. read_ipv6_event m event wall_clock_offset_ns) (read-record_bytes 16 6 h)
        ∙ read_ipv6_event-fields_of h)
