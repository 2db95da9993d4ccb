-- ===== src/Api/Requests/Segments.antt =====
-- The header "Idempotency-Key" and the segments of Redis keys have one format.
use enterprise_support_agent.Base.{
  ℕ, true, false, not, Option, none, some, [], ◌∷◌, ◌≡◌, refl, arith, ok, all,
}
use enterprise_support_agent.Base.Text.{Text, is_space, strip, strip_nonspace}
use enterprise_support_agent.Redis.Keys.{is_segment_char, is_segment}
use enterprise_support_agent.Api.Requests.{max_length, matches_pattern, idempotency_header}

segment_char-is_space : (c : ℕ) → is_segment_char c ≡ true → is_space c ≡ false
unfolding is_space
segment_char-is_space c h = ground arith

all_segment_char-nonspace :
    (s : Text) → all is_segment_char s ≡ true → all (λ c. not (is_space c)) s ≡ true
all_segment_char-nonspace [] h = refl
all_segment_char-nonspace (c ∷ s) h =
    ground (arith, segment_char-is_space c, all_segment_char-nonspace s)

pub strip-segment : (s : Text) → is_segment s ≡ true → strip s ≡ s
unfolding is_segment
strip-segment [] h = cc
strip-segment (c ∷ s) h = strip_nonspace (c ∷ s) (ground (arith, all_segment_char-nonspace (c ∷ s)))

pub idempotency_header-is_segment :
    (field : Option Text) (key : Text)
    → idempotency_header field ≡ ok key
    → (field ≡ some key) × (is_segment key ≡ true)
unfolding idempotency_header max_length matches_pattern is_segment
idempotency_header-is_segment none key h = cc
idempotency_header-is_segment (some []) key h = ground arith
idempotency_header-is_segment (some (c ∷ s)) key h = ground arith

pub idempotency_header-strip :
    (field : Option Text) (key : Text) → idempotency_header field ≡ ok key → strip key ≡ key
idempotency_header-strip field key h =
    strip-segment key (idempotency_header-is_segment field key h).1
