-- ===== src/Security/Escaped.antt =====
-- The escapes of src/security/injection-sanitizer.ts, character by character: the replacements of the source,
-- one after the other, are one map over the characters.
use Prim.Native.Char.{Char, char, code}
use text.Mathlib.TextEquality.{Char-path}
use Prim.Native.String.append
use Prim.Native.String.{◌++◌}
use jin_core.Security.Sanitizer.{replace_char, escape_delimiter_chars, escape_source}
use jin_core.Base.{
  sym, ◌∙◌, ap, refl, arith, false, ◌==◌, if◌then◌else◌, ◌⊎◌, inr, inl, ◌≡◌, String,
}

-- `◌++◌`, by clauses
abbrev pub put : String → String → String
put String.[] t = t
put (String.◌∷◌ c s) t = String.◌∷◌ c (put s t)

pub append-put : (s t : String) → s ++ t ≡ put s t
append-put String.[] t = append.nil t
append-put (String.◌∷◌ c s) t = append.cons c s t ∙ ap (λ r. String.◌∷◌ c r) (append-put s t)

unfoldable pub one : String → String → String → String → Char → String
one lt gt quot amp c =
    if code c == b'&'
    then amp
    else if code c == b'<'
    then lt
    else if code c == b'>'
    then gt
    else if code c == b'"'
    then quot
    else String.◌∷◌ c String.[]

unfoldable pub mapped : String → String → String → String → String → String
unfolding one
mapped lt gt quot amp String.[] = String.[]
mapped lt gt quot amp (String.◌∷◌ c s) = put (one lt gt quot amp c) (mapped lt gt quot amp s)

abbrev pub CharCases : Char → Type 0
CharCases c =
    (code c ≡ b'&')
    ⊎ (code c ≡ b'<')
    ⊎ (code c ≡ b'>')
    ⊎ (code c ≡ b'"')
    ⊎ ((code c == b'&') ≡ false)
      × ((code c == b'<') ≡ false)
      × ((code c == b'>') ≡ false)
      × ((code c == b'"') ≡ false)

pub char_cases : (c : Char) → CharCases c
char_cases c = ground arith

-- one `replace` of the escape after the other
escape_amp :
    (s : String)
    → replace_char b'&' "&amp;" (mapped "<" ">" "\"" "&" s) ≡ mapped "<" ">" "\"" "&amp;" s
unfolding mapped one replace_char
escape_amp String.[] = refl
escape_amp (String.◌∷◌ c s) = elim (char_cases c) [
  | inl e ↦ rw e (append-put "&amp;" _ ∙ ap (put "&amp;") (escape_amp s))
  | inr (inl e) ↦ rw e (ap (put "<") (escape_amp s))
  | inr (inr (inl e)) ↦ rw e (ap (put ">") (escape_amp s))
  | inr (inr (inr (inl e))) ↦ rw e (ap (put "\"") (escape_amp s))
  | inr (inr (inr (inr (amp, lt, gt, quot)))) ↦
      rw (amp, lt, gt, quot, amp) (ap (λ r. String.◌∷◌ c r) (escape_amp s))
]

escape_lt :
    (s : String)
    → replace_char b'<' "&lt;" (mapped "<" ">" "\"" "&amp;" s) ≡ mapped "&lt;" ">" "\"" "&amp;" s
unfolding mapped one replace_char
escape_lt String.[] = refl
escape_lt (String.◌∷◌ c s) = elim (char_cases c) [
  | inl e ↦ rw e (ap (put "&amp;") (escape_lt s))
  | inr (inl e) ↦ rw e (append-put "&lt;" _ ∙ ap (put "&lt;") (escape_lt s))
  | inr (inr (inl e)) ↦ rw e (ap (put ">") (escape_lt s))
  | inr (inr (inr (inl e))) ↦ rw e (ap (put "\"") (escape_lt s))
  | inr (inr (inr (inr (amp, lt, gt, quot)))) ↦
      rw (amp, lt, gt, quot, lt) (ap (λ r. String.◌∷◌ c r) (escape_lt s))
]

escape_gt :
    (s : String)
    → replace_char b'>' "&gt;" (mapped "&lt;" ">" "\"" "&amp;" s)
      ≡ mapped "&lt;" "&gt;" "\"" "&amp;" s
unfolding mapped one replace_char
escape_gt String.[] = refl
escape_gt (String.◌∷◌ c s) = elim (char_cases c) [
  | inl e ↦ rw e (ap (put "&amp;") (escape_gt s))
  | inr (inl e) ↦ rw e (ap (put "&lt;") (escape_gt s))
  | inr (inr (inl e)) ↦ rw e (append-put "&gt;" _ ∙ ap (put "&gt;") (escape_gt s))
  | inr (inr (inr (inl e))) ↦ rw e (ap (put "\"") (escape_gt s))
  | inr (inr (inr (inr (amp, lt, gt, quot)))) ↦
      rw (amp, lt, gt, quot, gt) (ap (λ r. String.◌∷◌ c r) (escape_gt s))
]

escape_quot :
    (s : String)
    → replace_char b'"' "&quot;" (mapped "&lt;" "&gt;" "\"" "&amp;" s)
      ≡ mapped "&lt;" "&gt;" "&quot;" "&amp;" s
unfolding mapped one replace_char
escape_quot String.[] = refl
escape_quot (String.◌∷◌ c s) = elim (char_cases c) [
  | inl e ↦ rw e (ap (put "&amp;") (escape_quot s))
  | inr (inl e) ↦ rw e (ap (put "&lt;") (escape_quot s))
  | inr (inr (inl e)) ↦ rw e (ap (put "&gt;") (escape_quot s))
  | inr (inr (inr (inl e))) ↦ rw e (append-put "&quot;" _ ∙ ap (put "&quot;") (escape_quot s))
  | inr (inr (inr (inr (amp, lt, gt, quot)))) ↦
      rw (amp, lt, gt, quot, quot) (ap (λ r. String.◌∷◌ c r) (escape_quot s))
]

pub mapped_same : (s : String) → mapped "<" ">" "\"" "&" s ≡ s
unfolding mapped one
mapped_same String.[] = refl
mapped_same (String.◌∷◌ c s) = elim (char_cases c) [
  | inl e ↦ rw (e, mapped_same s) (ap (λ d. String.◌∷◌ d s) (Char-path (char 38 tt) c (sym e)))
  | inr (inl e) ↦
      rw (e, mapped_same s) (ap (λ d. String.◌∷◌ d s) (Char-path (char 60 tt) c (sym e)))
  | inr (inr (inl e)) ↦
      rw (e, mapped_same s) (ap (λ d. String.◌∷◌ d s) (Char-path (char 62 tt) c (sym e)))
  | inr (inr (inr (inl e))) ↦
      rw (e, mapped_same s) (ap (λ d. String.◌∷◌ d s) (Char-path (char 34 tt) c (sym e)))
  | inr (inr (inr (inr (amp, lt, gt, quot)))) ↦ rw (amp, lt, gt, quot, mapped_same s) refl
]

pub escape-mapped : (s : String) → escape_delimiter_chars s ≡ mapped "&lt;" "&gt;" "\"" "&amp;" s
unfolding escape_delimiter_chars
escape-mapped s =
    rw
      (
        ap (replace_char b'&' "&amp;") (sym (mapped_same s)) ∙ escape_amp s,
        escape_lt s,
        escape_gt s,
      )
      refl

pub escape_source-mapped : (s : String) → escape_source s ≡ mapped "&lt;" "&gt;" "&quot;" "&amp;" s
unfolding escape_source
escape_source-mapped s = rw (escape-mapped s, escape_quot s) refl
