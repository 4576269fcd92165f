-- ===== src/Evidence/Citations.antt =====
-- backend/app/agent.py: `re.findall(r"\[event:([0-9a-fA-F-]{36})\]", report)`.
use trace_pilot.Prelude.{
  ℕ, zero, suc, ◌-◌, Text, codes, Bool, true, ◌&&◌, ◌||◌, Option, none, some, List, [], ◌∷◌, take,
  drop, leb, eqb, ◌==◌, number_eq, list_eq, if◌then◌else◌,
}

-- The class `[0-9a-fA-F-]`.
unfoldable pub is_id_char : ℕ → Bool
is_id_char c =
    leb b'0' c && leb c b'9'
    || (leb b'a' c && leb c b'f')
    || (leb b'A' c && leb c b'F')
    || eqb c b'-'

unfoldable pub all_id_chars : Text → Bool
unfolding is_id_char
all_id_chars [] = true
all_id_chars (c ∷ cs) = is_id_char c && all_id_chars cs

abbrev pub opening : Text
opening = codes "[event:"

-- The length of a match: seven characters, the ID, and the closing bracket.
abbrev pub match_length : ℕ
match_length = 44

-- The pattern at the start of a text. It has one way to match, since its length is fixed.
unfoldable pub match_here : Text → Option Text
unfolding all_id_chars
match_here s =
    let cited = take 36 (drop 7 s) in
    if take 7 s == opening && all_id_chars cited && take 1 (drop 43 s) == b']' ∷ []
    then some cited
    else none

-- From left to right, without overlaps: after a match the scan passes over its characters.
-- `skip` is how many characters of the last match are left.
unfoldable pub scan : ℕ → Text → List Text
unfolding match_here
scan skip [] = []
scan (suc skip) (c ∷ s) = scan skip s
scan zero (c ∷ s) = elim (match_here (c ∷ s)) [
  | none ↦ scan 0 s
  | some cited ↦ cited ∷ scan (match_length - 1) s
]

unfoldable pub cited_event_ids : Text → List Text
unfolding scan
cited_event_ids report = scan 0 report
