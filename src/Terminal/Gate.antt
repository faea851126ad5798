-- ===== src/Terminal/Gate.antt =====
-- src/terminal/pty-input-gate.ts: the line that is being typed, byte by byte. Node's StringDecoder is the
-- parameter `Decoder`.
use jin_core.Agent.Turn.{spaces}
use jin_core.Budget.Cost.{text_length}
use jin_core.Base.{
  ◌&&◌, ◌||◌, some, not, leb, ◌==◌, any, none, false, true, ltb, [], ◌++◌, ◌∷◌, ℕ, List, Bool,
  if◌then◌else◌, Option, String,
}
use Prim.Native.Char.{Char, char, code}
use Prim.Native.String.{◌++◌ as ◌++ˢ◌}

pub record Decoder : Type 1 where
  pub Held : Type 0
  pub fresh : Held
  pub write : Held → ℕ → String × Held
  pub finish : Held → String

pub data EscapeState : Type 0 where
  unescaped esc csi ss3 : EscapeState

pub record PtyInputStep : Type 0 where
  pub bytes : List ℕ
  pub line : Option String

pub record PtyInputGate (d : Decoder) : Type 0 where
  pub line : String
  pub decoder : d.Held
  pub escape : EscapeState

abbrev pub max_line_chars : ℕ
max_line_chars = 4096

abbrev pub is_enter : ℕ → Bool
is_enter byte = byte == 13 || byte == 10

-- the white space of `\s` and of `trim`
abbrev pub is_space : Char → Bool
is_space c = any (λ n. n == code c) spaces

-- `replace(/\s+/g, ' ')`; `inside` a run, whose blank is written
unfoldable pub collapse : Bool → String → String
collapse inside String.[] = String.[]
collapse inside (String.◌∷◌ c s) =
    let rest = collapse (is_space c) s in
    if is_space c
    then (if inside then rest else String.◌∷◌ (char 32 tt) rest)
    else String.◌∷◌ c rest

unfoldable pub trim_start : String → String
trim_start String.[] = String.[]
trim_start (String.◌∷◌ c s) = let rest = trim_start s in if is_space c then rest else String.◌∷◌ c s

-- a character before the trimmed rest
abbrev pub before_trimmed : Char → String → String
before_trimmed c String.[] = if is_space c then String.[] else String.◌∷◌ c String.[]
before_trimmed c (String.◌∷◌ e t) = String.◌∷◌ c (String.◌∷◌ e t)

unfoldable pub trim_end : String → String
trim_end String.[] = String.[]
trim_end (String.◌∷◌ c s) = before_trimmed c (trim_end s)

-- the line as it is audited; `null` for an empty one
abbrev pub some_line : String → Option String
some_line String.[] = none
some_line (String.◌∷◌ c s) = some (String.◌∷◌ c s)

unfoldable pub audited_line : String → Option String
unfolding collapse trim_start trim_end
audited_line line = some_line (trim_end (trim_start (collapse false line)))

-- `Array.from(line).slice(0, -1)`
unfoldable pub without_last : String → String
without_last String.[] = String.[]
without_last (String.◌∷◌ c String.[]) = String.[]
without_last (String.◌∷◌ c (String.◌∷◌ e s)) = String.◌∷◌ c (without_last (String.◌∷◌ e s))

unfoldable pub has_no_space : String → Bool
has_no_space String.[] = true
has_no_space (String.◌∷◌ c s) = not (is_space c) && has_no_space s

-- `replace(/\s*\S*$/, '')`: the first place from which a run of blanks and then no other blank follows
unfoldable pub without_word : String → String
unfolding has_no_space trim_start
without_word String.[] = String.[]
without_word (String.◌∷◌ c s) =
    let rest = without_word s in
    if has_no_space (trim_start (String.◌∷◌ c s)) then String.[] else String.◌∷◌ c rest

abbrev pub next_escape : EscapeState → ℕ → EscapeState
next_escape unescaped byte = unescaped
next_escape esc byte = if byte == 91 then csi else if byte == 79 then ss3 else unescaped
next_escape csi byte = if leb 64 byte && leb byte 126 then unescaped else csi
next_escape ss3 byte = unescaped

module _ (d : Decoder) where
  -- also `reset`
  unfoldable pub fresh_gate : PtyInputGate d
  fresh_gate = record { line = String.[]; decoder = d.fresh; escape = unescaped }

  abbrev pub with_line : PtyInputGate d → String → PtyInputGate d
  with_line g line = record { line = line; decoder = g.decoder; escape = g.escape }

  abbrev pub with_escape : PtyInputGate d → EscapeState → PtyInputGate d
  with_escape g escape = record { line = g.line; decoder = g.decoder; escape = escape }

  -- the text of a byte, once it is whole
  unfoldable pub write_byte : PtyInputGate d → String × d.Held → PtyInputGate d
  unfolding text_length
  write_byte g (text, decoder) = record {
    line = if ltb (text_length g.line) max_line_chars then g.line ++ˢ text else g.line;
    decoder = decoder;
    escape = g.escape;
  }

  unfoldable pub apply_key : PtyInputGate d → ℕ → PtyInputGate d
  unfolding without_last without_word write_byte
  apply_key g byte =
      if byte == 8 || byte == 127
      then with_line g (without_last g.line)
      else if byte == 3 || byte == 21
      then (record { line = String.[]; decoder = d.fresh; escape = g.escape })
      else if byte == 23
      then with_line g (without_word g.line)
      else if ltb byte 32
      then g
      else write_byte g (d.write g.decoder byte)

  -- `takeLine`: `end()` leaves a fresh decoder
  abbrev pub taken_line : PtyInputGate d → Option String
  taken_line g = audited_line (g.line ++ˢ d.finish g.decoder)

  abbrev pub line_taken : PtyInputGate d → PtyInputGate d
  line_taken g = record { line = String.[]; decoder = d.fresh; escape = g.escape }

  -- what one byte does: the gate, the steps that it ends and the bytes that wait for the next one
  pub record Fed : Type 0 where
    pub gate : PtyInputGate d
    pub steps : List PtyInputStep
    pub waiting : List ℕ

  abbrev pub held_back : PtyInputGate d → List ℕ → ℕ → Fed
  held_back g waiting byte = record { gate = g; steps = []; waiting = waiting ++ byte ∷ [] }

  abbrev pub entered : PtyInputGate d → List ℕ → ℕ → Fed
  entered g waiting byte = record {
    gate = line_taken g;
    steps = (record { bytes = waiting ++ byte ∷ []; line = taken_line g }) ∷ [];
    waiting = [];
  }

  unfoldable pub feed_key : PtyInputGate d → List ℕ → ℕ → Fed
  unfolding apply_key audited_line
  feed_key g waiting byte =
      if byte == 27
      then held_back (with_escape g esc) waiting byte
      else if is_enter byte
      then entered g waiting byte
      else held_back (apply_key g byte) waiting byte

  unfoldable pub feed_byte : PtyInputGate d → EscapeState → List ℕ → ℕ → Fed
  unfolding feed_key
  feed_byte g unescaped waiting byte = feed_key g waiting byte
  feed_byte g escape waiting byte = held_back (with_escape g (next_escape escape byte)) waiting byte

  -- the loop of `feed`, from the bytes that wait
  unfoldable pub feed_from : PtyInputGate d → List ℕ → List ℕ → Fed
  unfolding feed_byte
  feed_from g waiting [] = record { gate = g; steps = []; waiting = waiting }
  feed_from g waiting (byte ∷ bytes) =
      let now = feed_byte g g.escape waiting byte in
      let later = feed_from now.gate now.waiting bytes in
      record { gate = later.gate; steps = now.steps ++ later.steps; waiting = later.waiting }

  abbrev pub rest_step : List ℕ → List PtyInputStep
  rest_step [] = []
  rest_step (b ∷ bs) = (record { bytes = b ∷ bs; line = none }) ∷ []

  unfoldable pub feed : PtyInputGate d → List ℕ → List PtyInputStep × PtyInputGate d
  unfolding feed_from
  feed g bytes = let fed = feed_from g [] bytes in (fed.steps ++ rest_step fed.waiting, fed.gate)
