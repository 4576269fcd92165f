-- ===== src/Collector/Layout.antt =====
-- collector/event_parser.py: the memory layout of the two ctypes structures, and what of the
-- machine and of the standard library the parser depends on. A byte is a number below 256.
use mathlib.Core.List.{reverse}
use trace_pilot.Prelude.{
  ℕ, zero, suc, ◌+◌, ◌*◌, ◌/◌, ◌%◌, Text, List, [], ◌∷◌, ◌++◌, take, drop, if◌then◌else◌, eqb,
}
use trace_pilot.Prelude.Decimal.{decimal}

-- `sys.byteorder`
pub data ByteOrder : Type 0 where
  little big : ByteOrder

-- Floats are bit patterns. `true_div` is `/` of two ints, `fromtimestamp` goes to a time in UTC,
-- `inet_ntop` is the C library's text of an IPv6 address, `decode` is UTF-8 with replacement.
pub record Platform : Type 0 where
  pub byteorder : ByteOrder
  pub true_div : ℕ → ℕ → ℕ
  pub fromtimestamp : ℕ → ℕ
  pub isoformat : ℕ → Text
  pub inet_ntop : List ℕ → Text
  pub decode : List ℕ → Text

-- The number with these bytes, the least significant first.
unfoldable pub from_little : List ℕ → ℕ
from_little [] = 0
from_little (b ∷ bs) = b + 256 * from_little bs

-- The k low bytes of a number, the least significant first.
unfoldable pub to_little : ℕ → ℕ → List ℕ
to_little zero n = []
to_little (suc k) n = n % 256 ∷ to_little k (n / 256)

-- A `c_uint` field read from memory, and `int.to_bytes`.
unfoldable pub from_memory : ByteOrder → List ℕ → ℕ
unfolding from_little
from_memory little bs = from_little bs
from_memory big bs = from_little (reverse bs)

unfoldable pub to_bytes : ByteOrder → ℕ → ℕ → List ℕ
unfolding to_little
to_bytes little k n = to_little k n
to_bytes big k n = reverse (to_little k n)

-- `socket.ntohs`
unfoldable pub ntohs : ByteOrder → ℕ → ℕ
ntohs little n = (n % 256) * 256 + n / 256 % 256
ntohs big n = n

-- `socket.inet_ntoa`
unfoldable pub inet_ntoa : List ℕ → Text
unfolding decimal
inet_ntoa [] = []
inet_ntoa (b ∷ []) = decimal b
inet_ntoa (b ∷ b' ∷ bs) = decimal b ++ (b'.' ∷ inet_ntoa (b' ∷ bs))

-- `.split(b"\0", 1)[0]`, which is also how ctypes reads a `c_char` array
unfoldable pub before_nul : List ℕ → List ℕ
before_nul [] = []
before_nul (b ∷ bs) = let rest = before_nul bs in if eqb b 0 then [] else b ∷ rest

-- The fields of a structure as they lie in memory, with an address of the given width. No field
-- needs padding in front of it: the offsets are 0, 8, 16, 20, 24, and then 28, 30, 31 for IPv4 and
-- 40, 42, 43 for IPv6.
pub record RawEvent : Type 0 where
  pub timestamp_ns : List ℕ
  pub duration_ns : List ℕ
  pub pid : List ℕ
  pub uid : List ℕ
  pub destination_ip : List ℕ
  pub destination_port : List ℕ
  pub ip_version : List ℕ
  pub process_name : List ℕ

-- `structure_type.from_buffer_copy(raw_event)`
unfoldable pub from_buffer_copy : ℕ → List ℕ → RawEvent
from_buffer_copy width raw =
    let at_duration = drop 8 raw in
    let at_pid = drop 8 at_duration in
    let at_uid = drop 4 at_pid in
    let at_ip = drop 4 at_uid in
    let at_port = drop width at_ip in
    let at_version = drop 2 at_port in
    let at_name = drop 1 at_version in
    record {
      timestamp_ns = take 8 raw;
      duration_ns = take 8 at_duration;
      pid = take 4 at_pid;
      uid = take 4 at_uid;
      destination_ip = take width at_ip;
      destination_port = take 2 at_port;
      ip_version = take 1 at_version;
      process_name = take 16 at_name;
    }

-- `ctypes.sizeof`: 43 bytes beside the address, rounded up to the alignment of a `c_uint64`.
abbrev pub sizeof : ℕ → ℕ
sizeof width = (43 + width + 7) / 8 * 8
