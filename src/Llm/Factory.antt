-- ===== src/Llm/Factory.antt =====
-- backend/app/llm/factory.py, `create_llm_provider`.
use mathlib.Core.List.{reverse}
use trace_pilot.Prelude.{
  ℕ, Text, codes, Bool, ◌||◌, ◌&&◌, Option, none, some, [], ◌∷◌, contains, leb, map, ◌==◌, list_eq,
  number_eq, if◌then◌else◌, ◌+◌,
}
use trace_pilot.Exec.{Result, raises, name_error}
use trace_pilot.Llm.Base.{LlmProvider}

-- `str.isspace` of one character
unfoldable pub is_space : ℕ → Bool
is_space c =
    leb 9 c && leb c 13
    || (leb 28 c && leb c 32)
    || (leb 0x2000 c && leb c 0x200A)
    || contains (0x85 ∷ 0xA0 ∷ 0x1680 ∷ 0x2028 ∷ 0x2029 ∷ 0x202F ∷ 0x205F ∷ 0x3000 ∷ []) c

unfoldable pub lstrip : Text → Text
unfolding is_space contains
lstrip [] = []
lstrip (c ∷ s) = let rest = lstrip s in if is_space c then rest else c ∷ s

-- `str.strip`
unfoldable pub strip : Text → Text
unfolding lstrip
strip s = reverse (lstrip (reverse (lstrip s)))

-- `str.lower` on the ASCII letters; no other letter is lowered to one of "gemini".
unfoldable pub lower : Text → Text
lower = map (λ c. if leb b'A' c && leb c b'Z' then c + 32 else c)

-- `os.getenv("LLM_PROVIDER", "mock").strip().lower()`
unfoldable pub provider_setting : Option Text → Text
unfolding strip lower
provider_setting none = lower (strip (codes "mock"))
provider_setting (some value) = lower (strip value)

-- `gemini` is what `GeminiProvider()` returns or raises. The result of `getenv` is bound to
-- `provider`, and the tests that follow the first one read `provider_name`, which nothing binds:
-- Python raises a `NameError` there.
unfoldable pub create_llm_provider : Option Text → Result LlmProvider → Result LlmProvider
create_llm_provider env gemini =
    if provider_setting env == codes "gemini" then gemini else raises (name_error "provider_name")
