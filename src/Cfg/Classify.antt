-- ===== src/Cfg/Classify.antt =====
-- backend/reversing_lab/disassembler/classify.py, with the `Instruction` of
-- backend/reversing_lab/disassembler/disassembler.py. Operand texts are ASCII.
use Prim.Native.Char.{code}
use reversing_lab.Prelude.{
  ℕ, ◌+◌, ◌-◌, ◌*◌, String, Bool, true, false, not, ◌&&◌, ◌||◌, Option, none, some, List, any,
  if◌then◌else◌, leb, ◌==◌, str_eq,
}
use reversing_lab.Prelude.Trim.{strip, lstrip, behind_comma}

pub record Instruction : Type 0 where
  pub address : ℕ
  pub mnemonic : String
  pub op_str : String
  pub bytes_hex : String
  pub size : ℕ
  pub groups : List String

-- The address just behind an instruction.
abbrev pub next_address : Instruction → ℕ
next_address insn = insn.address + insn.size

abbrev or_whole : String → Option String → String
or_whole op_str none = op_str
or_whole op_str (some rest) = rest

-- op_str.rsplit(",", 1)[-1].strip()
unfoldable pub last_operand : String → String
unfolding behind_comma strip
last_operand op_str = strip (or_whole op_str (behind_comma op_str))

-- The value of a hexadecimal digit.
unfoldable pub hex_value : ℕ → Option ℕ
hex_value c =
    if leb b'0' c && leb c b'9'
    then some (c - b'0')
    else if leb b'a' c && leb c b'f'
    then some (c - b'a' + 10)
    else if leb b'A' c && leb c b'F'
    then some (c - b'A' + 10)
    else none

-- What the reader of digits has just seen: the prefix, a digit, or an underscore between digits.
pub data Seen : Type 0 where
  prefix digit underscore : Seen

abbrev finish : Seen → ℕ → Option ℕ
finish digit value = some value
finish _ value = none

abbrev may_group : Seen → Bool
may_group underscore = false
may_group _ = true

-- int(text, 16) behind its "0x"; `none` is the `ValueError`.
unfoldable pub read_hex : Seen → ℕ → String → Option ℕ
unfolding hex_value
read_hex seen value String.[] = finish seen value
read_hex seen value (String.◌∷◌ c s) = elim (hex_value (code c)) [
  | some d ↦ read_hex digit (value * 16 + d) s
  | none ↦ if (code c == b'_') && may_group seen then read_hex underscore value s else none
]

-- `startswith("0x")`, and the digits.
unfoldable pub read_target : String → Option ℕ
unfolding read_hex
read_target (String.◌∷◌ c (String.◌∷◌ d s)) =
    if (code c == b'0') && (code d == b'x') then read_hex prefix 0 s else none
read_target _ = none

unfoldable pub direct_target : Instruction → Option ℕ
unfolding last_operand read_target lstrip
direct_target insn = read_target (lstrip (λ c. c == b'#') (last_operand insn.op_str))

-- name in groups
abbrev pub in_groups : String → Instruction → Bool
in_groups name insn = any (λ g. str_eq g name) insn.groups

-- mnemonic in _MIPS_CALL_MNEMONICS
abbrev is_mips_call : String → Bool
is_mips_call m = str_eq m "jal" || str_eq m "bal" || str_eq m "jalr"

unfoldable pub is_call : Instruction → Bool
is_call insn = in_groups "call" insn || is_mips_call insn.mnemonic

unfoldable pub is_jump : Instruction → Bool
unfolding is_call
is_jump insn = in_groups "jump" insn && not (is_call insn)

unfoldable pub is_return : Instruction → Bool
unfolding last_operand
is_return insn =
    let operand = last_operand insn.op_str in
    if in_groups "ret" insn || in_groups "return" insn
    then true
    else if (str_eq insn.mnemonic "bx" || str_eq insn.mnemonic "bxj") && str_eq operand "lr"
    then true
    else str_eq insn.mnemonic "jr" && (str_eq operand "$ra" || str_eq operand "$31")

abbrev pub is_none : Option ℕ → Bool
is_none none = true
is_none (some _) = false

-- mnemonic in _UNCONDITIONAL
abbrev pub is_bare : String → Bool
is_bare m = str_eq m "jmp" || str_eq m "b" || str_eq m "j"

unfoldable pub is_unconditional_jump : Instruction → Bool
unfolding is_jump direct_target
is_unconditional_jump insn = is_jump insn && (is_bare insn.mnemonic || is_none (direct_target insn))

unfoldable pub falls_through : Instruction → Bool
unfolding is_unconditional_jump
falls_through insn = is_jump insn && not (is_unconditional_jump insn)
