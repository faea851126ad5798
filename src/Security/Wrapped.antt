-- ===== src/Security/Wrapped.antt =====
-- src/security/injection-sanitizer.ts: no text from outside opens or closes a tag.
use mathlib.Core.Path.{subst}
use Prim.Native.Nat.{zero}
use jin_core.Runtime.Program.{err, ok}
use jin_core.Security.Escaped.{
  char_cases, escape_source-mapped, escape-mapped, append-put, put, one, mapped,
}
use Prim.Native.Char.{Char, code}
use Prim.Native.String.append
use Prim.Native.String.{◌++◌}
use jin_core.Security.Sanitizer.{wrapped, is_session_nonce, is_hexes, wrap_untrusted_content}
use jin_core.Base.{
  Bool-cases, true, suc, ◌+◌, ℕ, ap, refl, arith, ◌==◌, if◌then◌else◌, inr, inl, ◌≡◌, String,
}

-- how often a character stands in a text
unfoldable pub char_count : ℕ → String → ℕ
char_count k String.[] = 0
char_count k (String.◌∷◌ c s) = let rest = char_count k s in if code c == k then suc rest else rest

char_count-append : (k : ℕ) (s t : String) → char_count k (s ++ t) ≡ char_count k s + char_count k t
unfolding char_count
char_count-append k String.[] t = rw (append.nil t) (omega arith)
char_count-append k (String.◌∷◌ c s) t =
    rw (append.cons c s t) (ground (arith, char_count-append k s t))

char_count-put : (k : ℕ) (s t : String) → char_count k (put s t) ≡ char_count k s + char_count k t
char_count-put k s t = rw (← append-put s t) (char_count-append k s t)

-- the two characters of a tag
pub data IsBracket : ℕ → Type 0 where
  opening : IsBracket b'<'
  closing : IsBracket b'>'

one_bare :
    (k : ℕ) (quot : String) (c : Char)
    → IsBracket k
    → char_count k quot ≡ 0
    → char_count k (one "&lt;" "&gt;" quot "&amp;" c) ≡ 0
unfolding one char_count
one_bare _ quot c opening bare = elim (char_cases c) [
  | inl e ↦ rw e refl
  | inr (inl e) ↦ rw e refl
  | inr (inr (inl e)) ↦ rw e refl
  | inr (inr (inr (inl e))) ↦ rw e bare
  | inr (inr (inr (inr (amp, lt, gt, quote)))) ↦ rw (amp, lt, gt, quote, lt) refl
]
one_bare _ quot c closing bare = elim (char_cases c) [
  | inl e ↦ rw e refl
  | inr (inl e) ↦ rw e refl
  | inr (inr (inl e)) ↦ rw e refl
  | inr (inr (inr (inl e))) ↦ rw e bare
  | inr (inr (inr (inr (amp, lt, gt, quote)))) ↦ rw (amp, lt, gt, quote, gt) refl
]

mapped_bare :
    (k : ℕ) (quot s : String)
    → IsBracket k
    → char_count k quot ≡ 0
    → char_count k (mapped "&lt;" "&gt;" quot "&amp;" s) ≡ 0
unfolding mapped char_count
mapped_bare k quot String.[] bracket bare = refl
mapped_bare k quot (String.◌∷◌ c s) bracket bare =
    rw
      (
        char_count-put k (one "&lt;" "&gt;" quot "&amp;" c) (mapped "&lt;" "&gt;" quot "&amp;" s),
        one_bare k quot c bracket bare,
        mapped_bare k quot s bracket bare,
      )
      (omega arith)

hex_bare : (k n : ℕ) (s : String) → IsBracket k → is_hexes n s ≡ true → char_count k s ≡ 0
unfolding char_count is_hexes
hex_bare k zero String.[] bracket h = refl
hex_bare k zero (String.◌∷◌ c s) bracket h = absurd (cc)
hex_bare k (suc n) String.[] bracket h = refl
hex_bare k (suc n) (String.◌∷◌ c s) opening h = ground (arith, hex_bare k n s opening)
hex_bare k (suc n) (String.◌∷◌ c s) closing h = ground (arith, hex_bare k n s closing)

-- what is between the fixed texts is bare
parts_closed :
    (k : ℕ) (source content nonce : String)
    → IsBracket k
    → char_count k source ≡ 0
    → char_count k content ≡ 0
    → char_count k nonce ≡ 0
    → char_count k (
        "<untrusted_content_" ++ nonce ++ " source=\"" ++ source ++ "\">" ++ content
        ++ "</untrusted_content_" ++ nonce ++ ">")
      ≡ 2
unfolding char_count
parts_closed _ source content nonce opening s0 c0 n0 =
    rw
      (
        char_count-append b'<',
        char_count-append b'<',
        char_count-append b'<',
        char_count-append b'<',
        char_count-append b'<',
        char_count-append b'<',
        char_count-append b'<',
        char_count-append b'<',
        s0,
        c0,
        n0,
      )
      refl
parts_closed _ source content nonce closing s0 c0 n0 =
    rw
      (
        char_count-append b'>',
        char_count-append b'>',
        char_count-append b'>',
        char_count-append b'>',
        char_count-append b'>',
        char_count-append b'>',
        char_count-append b'>',
        char_count-append b'>',
        s0,
        c0,
        n0,
      )
      refl

quot_bare : (k : ℕ) → IsBracket k → (char_count k "\"" ≡ 0) × (char_count k "&quot;" ≡ 0)
unfolding char_count
quot_bare _ opening = (refl, refl)
quot_bare _ closing = (refl, refl)

wrapped_closed :
    (content source nonce : String) (k : ℕ)
    → IsBracket k
    → is_hexes 16 nonce ≡ true
    → char_count k (wrapped content source nonce) ≡ 2
unfolding wrapped
wrapped_closed content source nonce k bracket hex =
    let (plain_quot, escaped_quot) = quot_bare k bracket in
    rw (escape-mapped content, escape_source-mapped source)
      (parts_closed k _ _ nonce bracket (mapped_bare k "&quot;" source bracket escaped_quot)
        (mapped_bare k "\"" content bracket plain_quot) (hex_bare k 16 nonce bracket hex))

ok-injective : {s t : String} → ok s ≡ ok t → s ≡ t
ok-injective {s} e = ap (λ a. elim a [ ok x ↦ x | err _ ↦ s ]) e

-- Whatever the content and its source are, the wrapped text has just the brackets of its own two tags: no
-- text from outside closes the tag or opens another one.
pub wrap_untrusted_content_closed :
    (content source nonce text : String) (k : ℕ)
    → IsBracket k
    → wrap_untrusted_content content source nonce ≡ ok text
    → char_count k text ≡ 2
unfolding wrap_untrusted_content is_session_nonce
wrap_untrusted_content_closed content source nonce text k bracket e =
    elim (Bool-cases (is_hexes 16 nonce)) [
      | inl hex ↦
          subst (λ t. char_count k t ≡ 2) (ok-injective (rw hex at e))
            (wrapped_closed content source nonce k bracket hex)
      | inr bad ↦ absurd (let refused = rw bad at e in cc)
    ]
