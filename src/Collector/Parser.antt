-- ===== src/Collector/Parser.antt =====
-- collector/event_parser.py: `parse_ipv4_event` and `parse_ipv6_event`.
pub mod Bytes
pub mod Records
use trace_pilot.Prelude.{ℕ, ◌+◌, Text, codes, List, length, eqb, if◌then◌else◌}
use trace_pilot.Collector.Layout.{
  Platform, RawEvent, from_buffer_copy, sizeof, from_memory, to_bytes, ntohs, inet_ntoa, before_nul,
}

-- The dict that a parser returns.
pub record ApiEvent : Type 0 where
  pub timestamp : Text
  pub pid : ℕ
  pub process_name : Text
  pub uid : ℕ
  pub destination_ip : Text
  pub destination_port : ℕ
  pub ip_version : ℕ
  pub duration_ms : ℕ
  pub source : Text

-- The two `ValueError`s: the size expected and received, and the version received.
pub data Parsed : Type 0 where
  parsed : ApiEvent → Parsed
  invalid_size : ℕ → ℕ → Parsed
  wrong_version : ℕ → Parsed

module _ (m : Platform) where
  unfoldable pub kernel_time_to_datetime : ℕ → ℕ → ℕ
  kernel_time_to_datetime timestamp_ns wall_clock_offset_ns =
      m.fromtimestamp (m.true_div (wall_clock_offset_ns + timestamp_ns) 1_000_000_000)

  unfoldable pub decode_process_name : List ℕ → Text
  unfolding before_nul
  decode_process_name raw_name = m.decode (before_nul raw_name)

  abbrev number : List ℕ → ℕ
  number = from_memory m.byteorder

  -- The part that the two parsers share.
  unfoldable pub api_event : RawEvent → ℕ → Text → ℕ → ApiEvent
  unfolding kernel_time_to_datetime decode_process_name from_memory ntohs
  api_event event wall_clock_offset_ns destination_ip ip_version = record {
    timestamp =
        m.isoformat (kernel_time_to_datetime (number event.timestamp_ns) wall_clock_offset_ns);
    pid = number event.pid;
    process_name = decode_process_name (before_nul event.process_name);
    uid = number event.uid;
    destination_ip = destination_ip;
    destination_port = ntohs m.byteorder (number event.destination_port);
    ip_version = ip_version;
    duration_ms = m.true_div (number event.duration_ns) 1_000_000;
    source = codes "ebpf";
  }

  -- `destination_ip` in host byte order is written out as bytes in host byte order.
  unfoldable pub host_ip : RawEvent → Text
  unfolding to_bytes inet_ntoa from_memory
  host_ip event = inet_ntoa (to_bytes m.byteorder 4 (number event.destination_ip))

  -- What follows the reading of the structure.
  unfoldable pub read_ipv4_event : RawEvent → ℕ → Parsed
  unfolding api_event host_ip
  read_ipv4_event event wall_clock_offset_ns =
      if eqb (number event.ip_version) 4
      then parsed (api_event event wall_clock_offset_ns (host_ip event) 4)
      else wrong_version (number event.ip_version)

  unfoldable pub read_ipv6_event : RawEvent → ℕ → Parsed
  unfolding api_event
  read_ipv6_event event wall_clock_offset_ns =
      if eqb (number event.ip_version) 6
      then parsed (api_event event wall_clock_offset_ns (m.inet_ntop event.destination_ip) 6)
      else wrong_version (number event.ip_version)

  unfoldable pub parse_ipv4_event : List ℕ → ℕ → Parsed
  unfolding read_ipv4_event from_buffer_copy
  parse_ipv4_event raw_event wall_clock_offset_ns =
      if eqb (length raw_event) (sizeof 4)
      then read_ipv4_event (from_buffer_copy 4 raw_event) wall_clock_offset_ns
      else invalid_size (sizeof 4) (length raw_event)

  unfoldable pub parse_ipv6_event : List ℕ → ℕ → Parsed
  unfolding read_ipv6_event from_buffer_copy
  parse_ipv6_event raw_event wall_clock_offset_ns =
      if eqb (length raw_event) (sizeof 16)
      then read_ipv6_event (from_buffer_copy 16 raw_event) wall_clock_offset_ns
      else invalid_size (sizeof 16) (length raw_event)
