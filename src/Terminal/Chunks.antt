-- ===== src/Terminal/Chunks.antt =====
-- src/terminal/pty-input-gate.ts: what the gate forwards and audits, however the keys arrive.
use jin_core.Terminal.Gate.{
  ss3, rest_step, csi, esc, unescaped, is_enter, EscapeState, feed_key, PtyInputGate, PtyInputStep,
  feed_byte, feed_from, feed, Decoder,
}
use mathlib.Core.List.{append_assoc, append-nil}
use jin_core.Base.{
  refl, none, some, inr, inl, ◌∙◌, ◌==◌, ap, Option, Bool-cases, sym, [], ◌≡◌, ◌∷◌, ◌++◌, List, ℕ,
  String,
}

-- the bytes that are forwarded, and the lines that are audited before them
abbrev pub forwarded : List PtyInputStep → List ℕ
forwarded [] = []
forwarded (s ∷ ss) = s.bytes ++ forwarded ss

abbrev pub prepended : Option String → List String → List String
prepended none lines = lines
prepended (some line) lines = line ∷ lines

abbrev pub audited : List PtyInputStep → List String
audited [] = []
audited (s ∷ ss) = prepended s.line (audited ss)

forwarded-append : (ss ts : List PtyInputStep) → forwarded (ss ++ ts) ≡ forwarded ss ++ forwarded ts
forwarded-append [] ts = refl
forwarded-append (s ∷ ss) ts =
    ap (λ bs. s.bytes ++ bs) (forwarded-append ss ts)
    ∙ sym (append_assoc s.bytes (forwarded ss) (forwarded ts))

prepended-append :
    (o : Option String) (ls ms : List String) → prepended o (ls ++ ms) ≡ prepended o ls ++ ms
prepended-append none ls ms = refl
prepended-append (some line) ls ms = refl

pub audited-append : (ss ts : List PtyInputStep) → audited (ss ++ ts) ≡ audited ss ++ audited ts
audited-append [] ts = refl
audited-append (s ∷ ss) ts =
    ap (prepended s.line) (audited-append ss ts) ∙ prepended-append s.line (audited ss) (audited ts)

module _ (d : Decoder) where
  -- one byte
  byte_forwarded :
      (g : PtyInputGate d) (e : EscapeState) (waiting : List ℕ) (byte : ℕ)
      → forwarded (feed_byte d g e waiting byte).steps ++ (feed_byte d g e waiting byte).waiting
        ≡ waiting ++ byte ∷ []
  unfolding feed_byte feed_key
  byte_forwarded g unescaped waiting byte = elim (Bool-cases (byte == 27)) [
    | inl e ↦ rw e refl
    | inr n ↦ elim (Bool-cases (is_enter byte)) [
      | inl e ↦ rw (n, e) (append-nil _ ∙ append-nil _)
      | inr m ↦ rw (n, m) refl
    ]
  ]
  byte_forwarded g esc waiting byte = refl
  byte_forwarded g csi waiting byte = refl
  byte_forwarded g ss3 waiting byte = refl

  -- the bytes that wait change neither the gate nor the lines
  byte_alike :
      (g : PtyInputGate d) (e : EscapeState) (waiting other : List ℕ) (byte : ℕ)
      → ((feed_byte d g e waiting byte).gate ≡ (feed_byte d g e other byte).gate)
        × (audited (feed_byte d g e waiting byte).steps
            ≡ audited (feed_byte d g e other byte).steps)
  unfolding feed_byte feed_key
  byte_alike g unescaped waiting other byte = elim (Bool-cases (byte == 27)) [
    | inl e ↦ rw e (refl, refl)
    | inr n ↦ elim (Bool-cases (is_enter byte)) [
      | inl e ↦ rw (n, e) (refl, refl)
      | inr m ↦ rw (n, m) (refl, refl)
    ]
  ]
  byte_alike g esc waiting other byte = (refl, refl)
  byte_alike g csi waiting other byte = (refl, refl)
  byte_alike g ss3 waiting other byte = (refl, refl)

  from_forwarded :
      (g : PtyInputGate d) (waiting bytes : List ℕ)
      → forwarded (feed_from d g waiting bytes).steps ++ (feed_from d g waiting bytes).waiting
        ≡ waiting ++ bytes
  unfolding feed_from
  from_forwarded g waiting [] = sym (append-nil waiting)
  from_forwarded g waiting (byte ∷ bytes) =
      let now = feed_byte d g g.escape waiting byte in
      let later = feed_from d now.gate now.waiting bytes in
      ap (λ bs. bs ++ later.waiting) (forwarded-append now.steps later.steps)
      ∙ append_assoc (forwarded now.steps) (forwarded later.steps) later.waiting
      ∙ ap (λ bs. forwarded now.steps ++ bs) (from_forwarded now.gate now.waiting bytes)
      ∙ sym (append_assoc (forwarded now.steps) now.waiting bytes)
      ∙ ap (λ bs. bs ++ bytes) (byte_forwarded g g.escape waiting byte)
      ∙ append_assoc waiting (byte ∷ []) bytes

  rest_forwarded : (waiting : List ℕ) → forwarded (rest_step d waiting) ≡ waiting
  rest_forwarded [] = refl
  rest_forwarded (b ∷ bs) = append-nil (b ∷ bs)

  rest_silent :
      (ss : List PtyInputStep) (waiting : List ℕ) → audited (ss ++ rest_step d waiting) ≡ audited ss
  rest_silent ss [] = ap audited (append-nil ss)
  rest_silent ss (b ∷ bs) = audited-append ss _ ∙ append-nil (audited ss)

  from_alike :
      (g : PtyInputGate d) (waiting other bytes : List ℕ)
      → ((feed_from d g waiting bytes).gate ≡ (feed_from d g other bytes).gate)
        × (audited (feed_from d g waiting bytes).steps ≡ audited (feed_from d g other bytes).steps)
  unfolding feed_from
  from_alike g waiting other [] = (refl, refl)
  from_alike g waiting other (byte ∷ bytes) =
      let now = feed_byte d g g.escape waiting byte in
      let other_now = feed_byte d g g.escape other byte in
      let (same, lines) = byte_alike g g.escape waiting other byte in
      let (later, later_lines) = from_alike now.gate now.waiting other_now.waiting bytes in
      (
        later ∙ ap (λ k. (feed_from d k other_now.waiting bytes).gate) same,
        audited-append now.steps _
            ∙ ap (λ ls. ls ++ audited (feed_from d now.gate now.waiting bytes).steps) lines
            ∙ ap (λ ls. audited other_now.steps ++ ls)
                (later_lines ∙ ap (λ k. audited (feed_from d k other_now.waiting bytes).steps) same)
            ∙ sym (audited-append other_now.steps _),
      )

  from_split :
      (g : PtyInputGate d) (waiting first second : List ℕ)
      → ((feed_from d g waiting (first ++ second)).gate
          ≡ (feed_from d (feed_from d g waiting first).gate [] second).gate)
        × (audited (feed_from d g waiting (first ++ second)).steps
            ≡ audited (feed_from d g waiting first).steps
              ++ audited (feed_from d (feed_from d g waiting first).gate [] second).steps)
  unfolding feed_from
  from_split g waiting [] second = from_alike g waiting [] second
  from_split g waiting (byte ∷ first) second =
      let now = feed_byte d g g.escape waiting byte in
      let (gate, lines) = from_split now.gate now.waiting first second in
      (
        gate,
        audited-append now.steps _
            ∙ ap (λ ls. audited now.steps ++ ls) lines
            ∙ sym (append_assoc (audited now.steps) _ _)
            ∙ ap
                (λ ls.
                  ls
                  ++ audited
                      (feed_from d (feed_from d now.gate now.waiting first).gate [] second).steps)
                (sym (audited-append now.steps (feed_from d now.gate now.waiting first).steps)),
      )

  -- Every byte that the gate is fed is forwarded, once and in its place.
  pub feed-forwarded : (g : PtyInputGate d) (bytes : List ℕ) → forwarded (feed d g bytes).0 ≡ bytes
  unfolding feed
  feed-forwarded g bytes =
      let fed = feed_from d g [] bytes in
      forwarded-append fed.steps (rest_step d fed.waiting)
      ∙ ap (λ bs. forwarded fed.steps ++ bs) (rest_forwarded fed.waiting)
      ∙ from_forwarded g [] bytes

  -- However the keys are cut into messages, the gate ends in the same state and the same lines are audited,
  -- in the same order.
  pub feed_chunks :
      (g : PtyInputGate d) (first second : List ℕ)
      → ((feed d g (first ++ second)).1 ≡ (feed d (feed d g first).1 second).1)
        × (audited (feed d g (first ++ second)).0
            ≡ audited (feed d g first).0 ++ audited (feed d (feed d g first).1 second).0)
  unfolding feed
  feed_chunks g first second =
      let whole = feed_from d g [] (first ++ second) in
      let before = feed_from d g [] first in
      let behind = feed_from d before.gate [] second in
      let (gate, lines) = from_split g [] first second in
      (
        gate,
        rest_silent whole.steps whole.waiting
            ∙ lines
            ∙ ap (λ ls. ls ++ audited behind.steps) (sym (rest_silent before.steps before.waiting))
            ∙ ap (λ ls. audited (feed d g first).0 ++ ls)
                (sym (rest_silent behind.steps behind.waiting)),
      )
