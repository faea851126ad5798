-- ===== src/Examples/Keys.antt =====
-- Examples of the terminal's gate: a decoder of three letters, and a command that is typed in two parts.
use jin_core.Runtime.Program.{ok}
use jin_core.Terminal.Session.{process}
use jin_core.Runtime.World.{Outcome, run}
use jin_core.Terminal.Recorded.{process-Recorded, Recorded}
use jin_core.Terminal.Chunks.{feed_chunks, feed-forwarded, audited, forwarded}
use jin_core.Terminal.Gate.{PtyInputStep, trim_end, trim_start, collapse, fresh_gate, Decoder, feed}
use jin_core.Examples.Data.{host, world}
use jin_core.Base.{some, none, ◌==◌, [], ◌≡◌, ◌++◌, if◌then◌else◌, ◌∷◌, ℕ, List, String, refl}

abbrev letter : ℕ → String
letter byte = if byte == 108 then "l" else if byte == 115 then "s" else "?"

abbrev letters : Decoder
letters = record { Held = Unit; fresh = tt; write = λ _ byte. (letter byte, tt); finish = λ _. "" }

-- `lx`, a deletion, `s`, Enter
abbrev typed : List ℕ
typed = 108 ∷ 120 ∷ 127 ∷ 115 ∷ 13 ∷ []

feed-forwarded_example : forwarded (feed letters (fresh_gate letters) typed).0 ≡ typed
feed-forwarded_example = feed-forwarded letters (fresh_gate letters) typed

feed_chunks_example :
    ((feed letters (fresh_gate letters) (typed ++ typed)).1
      ≡ (feed letters (feed letters (fresh_gate letters) typed).1 typed).1)
    × (audited (feed letters (fresh_gate letters) (typed ++ typed)).0
        ≡ audited (feed letters (fresh_gate letters) typed).0
          ++ audited (feed letters (feed letters (fresh_gate letters) typed).1 typed).0)
feed_chunks_example = feed_chunks letters (fresh_gate letters) typed typed

typed_line : audited (feed letters (fresh_gate letters) typed).0 ≡ "ls" ∷ []
unfolding feed fresh_gate collapse trim_start trim_end
typed_line = refl

abbrev steps : List PtyInputStep
steps =
    (record { bytes = 108 ∷ 13 ∷ []; line = some "l" })
    ∷ (record { bytes = 115 ∷ []; line = none })
    ∷ []

-- the second step fails
process-Recorded_example :
    (r : Recorded
      (λ line. line)
      steps
      world
      (run host
        (Outcome.done ∷ Outcome.done ∷ Outcome.done ∷ Outcome.done ∷ Outcome.failed ∷ [])
        (process (λ line. line) (λ _ _. "hash") "w1" "p1" steps)
        world).1)
    × (((run host
            (Outcome.done ∷ Outcome.done ∷ Outcome.done ∷ Outcome.done ∷ Outcome.failed ∷ [])
            (process (λ line. line) (λ _ _. "hash") "w1" "p1" steps)
            world).0
          ≡ ok tt)
        → r.left ≡ [])
process-Recorded_example =
    process-Recorded (λ line. line) host steps world
      (Outcome.done ∷ Outcome.done ∷ Outcome.done ∷ Outcome.done ∷ Outcome.failed ∷ [])
      (λ _ _. "hash") "w1" "p1"
