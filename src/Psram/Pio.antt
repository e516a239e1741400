-- ===== src/Psram/Pio.antt =====
-- src/psram.rs, the PIO program of `init_psram`, and `PsRam::send_command`, which runs it. An
-- instruction does what the datasheet of the chip says; what is on the wires is a parameter.
use picocalc_wezterm.Prelude.{
  length, ◌*◌, ℕ, zero, suc, ◌+◌, ◌-◌, ◌/◌, ◌%◌, ◌^◌, Bool, true, false, Option, none, some, List,
  [], ◌∷◌, ◌++◌, Outcome, ok, out_of_fuel, ◌>>=◌, ◌==◌, if◌then◌else◌, get_elem?,
}

-- A chip on the wires: it is selected and deselected, it sees the edges of the clock, the rising
-- one with the level that is put out, and it puts out a level of its own.
pub record Wire : Type 1 where
  pub State : Type 0
  pub select : State → State
  pub deselect : State → State
  pub rise : State → Bool → State
  pub fall : State → State
  pub miso : State → Bool

-- The instructions of the program. A jump has the number of its target.
pub data Instruction : Type 0 where
  out_x out_y out_pins in_pins nop : Instruction
  jmp jmp_x_dec jmp_not_y jmp_y_dec : ℕ → Instruction

-- An instruction, and its side-set: SCK and CS.
pub record ProgramLine : Type 0 where
  pub instruction : Instruction
  pub sck : Bool
  pub cs : Bool

abbrev coded : Instruction → Bool → Bool → ProgramLine
coded i sck cs = record { instruction = i; sck = sck; cs = cs }

-- The labels `begin`, `writeloop`, `readloop`, `readloop_mid` and `done` are 0, 3, 8, 9 and 10.
abbrev pub program : List ProgramLine
program =
    coded out_x false true
    ∷ coded out_y false true
    ∷ coded (jmp_x_dec 3) false true
    ∷ coded out_pins false false
    ∷ coded (jmp_x_dec 3) true false
    ∷ coded (jmp_not_y 10) false false
    ∷ coded nop true false
    ∷ coded (jmp 9) false false
    ∷ coded in_pins false false
    ∷ coded (jmp_y_dec 8) true false
    ∷ coded nop true true
    ∷ []

-- The eight bits of a byte, the highest first: the shift registers shift left.
abbrev bit_at : ℕ → ℕ → Bool
bit_at c place = c / place % 2 == 1

unfoldable pub byte_bits : ℕ → List Bool
byte_bits c =
    bit_at c 128
    ∷ bit_at c 64
    ∷ bit_at c 32
    ∷ bit_at c 16
    ∷ bit_at c 8
    ∷ bit_at c 4
    ∷ bit_at c 2
    ∷ bit_at c 1
    ∷ []

unfoldable pub all_bits : List ℕ → List Bool
all_bits [] = []
all_bits (c ∷ cs) = byte_bits c ++ all_bits cs

abbrev digit : Bool → ℕ → ℕ
digit b place = if b then place else 0

abbrev pub byte_value : Bool → Bool → Bool → Bool → Bool → Bool → Bool → Bool → ℕ
byte_value a b c d e f g h =
    digit a 128
    + digit b 64
    + digit c 32
    + digit d 16
    + digit e 8
    + digit f 4
    + digit g 2
    + digit h 1

-- The next byte of a stream of bits, and the rest.
unfoldable pub next_byte : List Bool → Option (ℕ × List Bool)
next_byte (a ∷ b ∷ c ∷ d ∷ e ∷ f ∷ g ∷ h ∷ rest) = some (byte_value a b c d e f g h, rest)
next_byte bits = none

-- As many bytes as are asked for, the highest bit first; none while there are too few.
unfoldable pub pull : ℕ → List Bool → Option (List ℕ × List Bool)
unfolding next_byte
pull zero bits = some ([], bits)
pull (suc n) bits = elim (next_byte bits) [
  | none ↦ none
  | some (c, rest) ↦ elim (pull n rest) [ none ↦ none | some (cs, rest') ↦ some (c ∷ cs, rest') ]
]

module _ (w : Wire) where
  open w use {State, select, deselect, rise, fall, miso}

  -- `tx` is what is left to put out, and `rx` what was read.
  pub record Machine : Type 0 where
    pub pc : ℕ
    pub x : ℕ
    pub y : ℕ
    pub tx : List Bool
    pub rx : List Bool
    pub sck : Bool
    pub cs : Bool
    pub mosi : Bool
    pub wire : State

  abbrev edge : Bool → Bool → Bool → State → State
  edge false true mosi s = rise s mosi
  edge true false mosi s = fall s
  edge before after mosi s = s

  -- The chip as the levels of CS and SCK change. CS is low while it is selected.
  abbrev drive : Bool → Bool → Bool → Bool → Bool → State → State
  drive true true sck sck' mosi s = s
  drive false true sck sck' mosi s = deselect s
  drive true false sck sck' mosi s = edge sck sck' mosi (select s)
  drive false false sck sck' mosi s = edge sck sck' mosi s

  -- The side-set of a line.
  abbrev side_set : Machine → ProgramLine → Machine
  side_set m l = record m {
    sck = l.sck;
    cs = l.cs;
    wire = drive m.cs l.cs m.sck l.sck m.mosi m.wire;
  }

  -- A 32-bit register one less.
  abbrev dec : ℕ → ℕ
  dec n = if n == 0 then 2 ^ 32 - 1 else n - 1

  -- The program goes on at a line, or waits for more to put out.
  pub data Stepped : Type 0 where
    goes_on : Machine → Stepped
    stalled : Machine → Stepped

  abbrev step_byte : Machine → (ℕ → List Bool → Machine) → Stepped
  step_byte m f = elim (next_byte m.tx) [ some (n, rest) ↦ goes_on (f n rest) | none ↦ stalled m ]

  abbrev step_bit : Machine → List Bool → Stepped
  step_bit m [] = stalled m
  step_bit m (b ∷ rest) = goes_on (record m { pc = m.pc + 1; tx = rest; mosi = b })

  -- The second machine has the side-set done. `in_pins` reads the level from before it.
  unfoldable pub execute : Machine → Machine → Instruction → Stepped
  unfolding next_byte
  execute m n out_x = step_byte n λ v rest. record n { pc = n.pc + 1; x = v; tx = rest }
  execute m n out_y = step_byte n λ v rest. record n { pc = n.pc + 1; y = v; tx = rest }
  execute m n out_pins = step_bit n n.tx
  execute m n in_pins = goes_on (record n { pc = n.pc + 1; rx = n.rx ++ (miso m.wire ∷ []) })
  execute m n nop = goes_on (record n { pc = n.pc + 1 })
  execute m n (jmp target) = goes_on (record n { pc = target })
  execute m n (jmp_x_dec target) =
      goes_on (record n { pc = if n.x == 0 then n.pc + 1 else target; x = dec n.x })
  execute m n (jmp_not_y target) = goes_on (record n { pc = if n.y == 0 then target else n.pc + 1 })
  execute m n (jmp_y_dec target) =
      goes_on (record n { pc = if n.y == 0 then n.pc + 1 else target; y = dec n.y })

  -- Behind the last line the program starts again.
  unfoldable pub step : Machine → Stepped
  unfolding execute
  step m = elim (get_elem? program (if m.pc == 11 then 0 else m.pc)) [
    | some l ↦
        let here = record m { pc = if m.pc == 11 then 0 else m.pc } in
        execute here (side_set here l) l.instruction
    | none ↦ stalled m
  ]

  -- Until it waits.
  unfoldable pub run : ℕ → Machine → Outcome Machine
  unfolding step
  run zero m = out_of_fuel
  run (suc fuel) m = elim (step m) [ goes_on m' ↦ run fuel m' | stalled m' ↦ ok m' ]

  -- The command is pushed; then bytes are pulled, if any are wanted. None is a pull that waits.
  -- The loops of the program take two lines for each bit.
  unfoldable pub send_command : Machine → List ℕ → ℕ → Outcome (Option (Machine × List ℕ))
  unfolding run all_bits pull
  send_command m cmd n =
      run (16 * length cmd + 16 * n + 12) (record m { tx = m.tx ++ all_bits cmd }) >>= λ m'.
      ok (elim (pull n m'.rx) [
        | none ↦ none
        | some (bytes, rest) ↦ some (record m' { rx = rest }, bytes)
      ])
