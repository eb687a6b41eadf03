-- ===== src/KeyString.antt =====
-- key-string.c: keys as text.
mod RoundTrip
mod Tests
use Prim.Native.Nat.{bit_and, bit_or}
use tmux_cvs_archived.Prelude.{
  ℕ, zero, suc, ◌+◌, ◌-◌, ◌/◌, ◌%◌, Bool, true, false, ◌&&◌, ◌||◌, not, Option, none, some, List,
  [], ◌∷◌, ◌++◌, ltb, leb, ◌==◌, if◌then◌else◌, length, drop, codes, case_eq, take, get_or,
}

-- `KEYC_*`
abbrev pub keyc_none : ℕ
keyc_none = 0xfff

abbrev pub keyc_base : ℕ
keyc_base = 0x1000

abbrev pub keyc_escape : ℕ
keyc_escape = 0x2000

abbrev pub keyc_ctrl : ℕ
keyc_ctrl = 0x4000

abbrev pub keyc_shift : ℕ
keyc_shift = 0x8000

abbrev pub keyc_bspace : ℕ
keyc_bspace = 0x1001

-- `KEYC_MASK_MOD`, with KEYC_PREFIX, and `KEYC_MASK_KEY`
abbrev pub mask_mod : ℕ
mask_mod = 0x1e000

abbrev pub mask_key : ℕ
mask_key = 0xffffffff - 0x1e000

-- `key_string_table`, with the values of `enum key_code`.
abbrev pub key_table : List (List ℕ × ℕ)
key_table =
    (codes "F1", 0x1002)
    ∷ (codes "F2", 0x1003)
    ∷ (codes "F3", 0x1004)
    ∷ (codes "F4", 0x1005)
    ∷ (codes "F5", 0x1006)
    ∷ (codes "F6", 0x1007)
    ∷ (codes "F7", 0x1008)
    ∷ (codes "F8", 0x1009)
    ∷ (codes "F9", 0x100a)
    ∷ (codes "F10", 0x100b)
    ∷ (codes "F11", 0x100c)
    ∷ (codes "F12", 0x100d)
    ∷ (codes "F13", 0x100e)
    ∷ (codes "F14", 0x100f)
    ∷ (codes "F15", 0x1010)
    ∷ (codes "F16", 0x1011)
    ∷ (codes "F17", 0x1012)
    ∷ (codes "F18", 0x1013)
    ∷ (codes "F19", 0x1014)
    ∷ (codes "F20", 0x1015)
    ∷ (codes "IC", 0x1016)
    ∷ (codes "DC", 0x1017)
    ∷ (codes "Home", 0x1018)
    ∷ (codes "End", 0x1019)
    ∷ (codes "NPage", 0x101a)
    ∷ (codes "PPage", 0x101b)
    ∷ (codes "Tab", 9)
    ∷ (codes "BTab", 0x101c)
    ∷ (codes "Space", 32)
    ∷ (codes "BSpace", 0x1001)
    ∷ (codes "Enter", 13)
    ∷ (codes "Escape", 27)
    ∷ (codes "Up", 0x101d)
    ∷ (codes "Down", 0x101e)
    ∷ (codes "Left", 0x101f)
    ∷ (codes "Right", 0x1020)
    ∷ (codes "KP/", 0x1021)
    ∷ (codes "KP*", 0x1022)
    ∷ (codes "KP-", 0x1023)
    ∷ (codes "KP7", 0x1024)
    ∷ (codes "KP8", 0x1025)
    ∷ (codes "KP9", 0x1026)
    ∷ (codes "KP+", 0x1027)
    ∷ (codes "KP4", 0x1028)
    ∷ (codes "KP5", 0x1029)
    ∷ (codes "KP6", 0x102a)
    ∷ (codes "KP1", 0x102b)
    ∷ (codes "KP2", 0x102c)
    ∷ (codes "KP3", 0x102d)
    ∷ (codes "KPEnter", 0x102e)
    ∷ (codes "KP0", 0x102f)
    ∷ (codes "KP.", 0x1030)
    ∷ []

-- `key_string_search_table`
unfoldable pub search_table : List (List ℕ × ℕ) → List ℕ → ℕ
unfolding case_eq
search_table [] s = keyc_none
search_table ((name, key) ∷ rest) s = if case_eq s name then key else search_table rest s

abbrev pub modifier_of : ℕ → ℕ
modifier_of c =
    if c == b'C' || c == b'c'
    then keyc_ctrl
    else if c == b'M' || c == b'm'
    then keyc_escape
    else if c == b'S' || c == b's'
    then keyc_shift
    else 0

-- `key_string_get_modifiers`: the modifiers, and the string behind them.
unfoldable pub get_modifiers : List ℕ → ℕ → ℕ × List ℕ
get_modifiers [] modifiers = (modifiers, [])
get_modifiers (c ∷ []) modifiers = (modifiers, c ∷ [])
get_modifiers (c ∷ d ∷ rest) modifiers =
    let further = get_modifiers rest (bit_or modifiers (modifier_of c)) in
    if d == b'-' then further else (modifiers, c ∷ d ∷ rest)

-- "Convert the standard control keys"
unfoldable pub control_key : ℕ → ℕ
control_key key =
    if leb 97 key && leb key 122
    then key - 96
    else if leb 64 key && leb key 95
    then key - 64
    else if key == 32
    then 0
    else if key == 63
    then keyc_bspace
    else keyc_none

-- The key of what stands behind the modifiers, which is not empty.
unfoldable pub plain_key : List ℕ → ℕ
unfolding search_table
plain_key s =
    let key = get_or s 0 0 in
    if length s == 1
    then (if ltb key 32 || key == 127 || ltb 255 key then keyc_none else key)
    else search_table key_table s

-- The end of `key_string_lookup_string`.
unfoldable pub with_modifiers : ℕ → ℕ → ℕ
unfolding control_key
with_modifiers key modifiers =
    if ltb key keyc_base && not (bit_and modifiers keyc_ctrl == 0)
    then (if control_key key == keyc_none
        then keyc_none
        else bit_or (control_key key) (bit_and modifiers (0xffffffff - keyc_ctrl)))
    else bit_or key modifiers

-- `key_string_lookup_string`
unfoldable pub lookup_string : List ℕ → ℕ
unfolding get_modifiers plain_key with_modifiers
lookup_string s =
    let caret = get_or s 0 0 == b'^' && not (length s == 1) in
    let (modifiers, rest) = get_modifiers (if caret then drop 1 s else s) 0 in
    let all = bit_or (if caret then keyc_ctrl else 0) modifiers in
    if length rest == 0
    then keyc_none
    else if plain_key rest == keyc_none
    then keyc_none
    else with_modifiers (plain_key rest) all

-- The loop of `key_string_lookup_key` over the table.
unfoldable pub find_name : List (List ℕ × ℕ) → ℕ → Option (List ℕ)
find_name [] key = none
find_name ((name, k) ∷ rest) key = if key == k then some name else find_name rest key

-- `%o` of a byte from 128 on.
abbrev pub octal : ℕ → List ℕ
octal n = (b'0' + n / 64) ∷ (b'0' + n / 8 % 8) ∷ (b'0' + n % 8) ∷ []

-- The name of a key without modifiers; NULL is `none`.
unfoldable pub key_name : ℕ → Option (List ℕ)
unfolding find_name
key_name key = elim (find_name key_table key) [
  | some name ↦ some name
  | none ↦
      if key == 127 || ltb 255 key
      then none
      else if leb key 32
      then some (codes "C-" ++ ((if key == 0 || ltb 26 key then 64 + key else 96 + key) ∷ []))
      else if leb 32 key && leb key 126
      then some (key ∷ [])
      else some (b'\\' ∷ octal key)
]

abbrev pub prefix_name : ℕ → ℕ → List ℕ → List ℕ
prefix_name key modifier name = if bit_and key modifier == 0 then [] else name

-- `key_string_lookup_key`, of a key code that is not negative; 24 bytes hold every name.
unfoldable pub lookup_key : ℕ → Option (List ℕ)
unfolding key_name
lookup_key key0 =
    let key =
      if bit_and key0 mask_key == 0
      then bit_or (bit_or b' ' keyc_ctrl) (bit_and key0 mask_mod)
      else key0 in
    elim (key_name (bit_and key mask_key)) [
      | none ↦ none
      | some name ↦ some (
          prefix_name key keyc_ctrl (codes "C-")
          ++ (prefix_name key keyc_escape (codes "M-")
              ++ (prefix_name key keyc_shift (codes "S-") ++ name)))
    ]
