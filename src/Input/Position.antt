-- ===== src/Input/Position.antt =====
-- input.c: the control sequence that moves the cursor, from its bytes to the screen.
use tmux_cvs_archived.Prelude.{
  ℕ, subst, zero, suc, ◌+◌, ◌-◌, ◌/◌, ◌%◌, ◌≤◌, ◌<◌, ◌≡◌, refl, ◌∙◌, ap, sym, false, some, List, [],
  ◌∷◌, ◌++◌, ltb, ◌==◌, length, arith, Bool-cases, inl, inr, length-append, print_uint, digits_of,
}
use mathlib.Core.List.{append_assoc}
use tmux_cvs_archived.Screen.Cursor.{cursor_move}
use tmux_cvs_archived.Pane.{ground_state, World, Pane}
use tmux_cvs_archived.Input.Parse.{parse_bytes, switch_state}
use tmux_cvs_archived.Input.Sgr.{split, read_param, read_params, input_split, input_get, int_max}
use tmux_cvs_archived.Input.Escape.{find_entry}
use tmux_cvs_archived.Input.Csi.{csi_dispatch, control, on_screen}
use tmux_cvs_archived.Input.Sequence.{AreParams, collected, cleared, sequence_lem}

-- Digits.
IsDigit : ℕ → Type 0
IsDigit c = (b'0' ≤ c) × (c ≤ b'9')

AreDigits : List ℕ → Type 0
AreDigits [] = Unit
AreDigits (c ∷ cs) = IsDigit c × AreDigits cs

append-AreDigits : (xs : List ℕ) (c : ℕ) → AreDigits xs → IsDigit c → AreDigits (xs ++ (c ∷ []))
unfolding AreDigits
append-AreDigits [] c _ d = (d, tt)
append-AreDigits (x ∷ xs) c (e, ds) d = (e, append-AreDigits xs c ds d)

digits_of-AreDigits : (f n : ℕ) → AreDigits (digits_of f n)
unfolding digits_of AreDigits IsDigit
digits_of-AreDigits zero n = tt
digits_of-AreDigits (suc f) n = elim (Bool-cases (ltb n 10)) [
  | inl one ↦ rw one ((omega arith, ground (arith, one)), tt)
  | inr more ↦ rw more (
      append-AreDigits (digits_of f (n / 10)) _ (digits_of-AreDigits f (n / 10))
        (omega arith, omega arith))
]

length-digits_of : (f n : ℕ) → length (digits_of f n) ≤ f
unfolding digits_of
length-digits_of zero n = omega arith
length-digits_of (suc f) n = elim (Bool-cases (ltb n 10)) [
  | inl one ↦ rw one (omega arith)
  | inr more ↦ rw more (
      omega (
        arith,
        length-append (digits_of f (n / 10)) ((b'0' + n % 10) ∷ []),
        length-digits_of f (n / 10),
      ))
]

-- At least one digit is printed.
digits_found : (f n : ℕ) → (c : ℕ) × (cs : List ℕ) × (digits_of (suc f) n ≡ c ∷ cs)
unfolding digits_of
digits_found f n = elim (Bool-cases (ltb n 10)) [
  | inl one ↦ rw one (_, _, refl)
  | inr more ↦ rw more (joined (digits_of f (n / 10)) _)
]
  where
    joined : (xs : List ℕ) (d : ℕ) → (c : ℕ) × (cs : List ℕ) × (xs ++ (d ∷ []) ≡ c ∷ cs)
    joined [] d = (d, [], refl)
    joined (x ∷ xs) d = (x, xs ++ (d ∷ []), refl)

-- `strsep` at the one semicolon.
split_digits : (xs : List ℕ) → AreDigits xs → split xs ≡ xs ∷ []
unfolding split AreDigits IsDigit
split_digits [] _ = refl
split_digits (x ∷ xs) (d, ds) =
    let no_end : (x == b';') ≡ false = ground (arith, d.1) in rw (split_digits xs ds, no_end) refl

split_semicolon :
    (xs ys : List ℕ) → AreDigits xs → AreDigits ys → split (xs ++ (b';' ∷ ys)) ≡ xs ∷ ys ∷ []
unfolding split AreDigits IsDigit
split_semicolon [] ys _ es = rw (split_digits ys es) refl
split_semicolon (x ∷ xs) ys (d, ds) es =
    let no_end : (x == b';') ≡ false = ground (arith, d.1) in
    rw (split_semicolon xs ys ds es, no_end) refl

AreDigits-AreParams : (xs : List ℕ) → AreDigits xs → AreParams xs
unfolding AreDigits IsDigit
AreDigits-AreParams [] _ = tt
AreDigits-AreParams (x ∷ xs) (d, ds) = (inl d, AreDigits-AreParams xs ds)

two-AreParams : (xs ys : List ℕ) → AreDigits xs → AreDigits ys → AreParams (xs ++ (b';' ∷ ys))
unfolding AreDigits IsDigit
two-AreParams [] ys _ es = (inr refl, AreDigits-AreParams ys es)
two-AreParams (x ∷ xs) ys (d, ds) es = (inl d, two-AreParams xs ys ds es)

print_uint-AreDigits : (n : ℕ) → AreDigits (print_uint n)
unfolding print_uint
print_uint-AreDigits n = digits_of-AreDigits 10 n

length-print_uint : (n : ℕ) → length (print_uint n) ≤ 10
unfolding print_uint
length-print_uint n = length-digits_of 10 n

first_digit : (n : ℕ) → (c : ℕ) × (cs : List ℕ) × (print_uint n ≡ c ∷ cs)
unfolding print_uint
first_digit n = digits_found 9 n

head-IsDigit : (c : ℕ) (cs : List ℕ) → AreDigits (c ∷ cs) → (b'0' ≤ c) × (c ≤ b'9')
unfolding AreDigits IsDigit
head-IsDigit c cs (d, ds) = d

tail-AreDigits : (c : ℕ) (cs : List ℕ) → AreDigits (c ∷ cs) → AreDigits cs
unfolding AreDigits
tail-AreDigits c cs (d, ds) = ds

-- `strtonum` reads what `%u` prints, up to INT_MAX.
abbrev pub ReadsNumbers : World → Type 0
ReadsNumbers w = (n : ℕ) → n ≤ int_max → w.strtonum (print_uint n) 0 int_max ≡ some n

read_found :
    (w : World) (n : ℕ) → ReadsNumbers w → n ≤ int_max → read_param w (print_uint n) ≡ some (some n)
unfolding print_uint
read_found w n reads h =
    let (c, cs, e) = digits_found 9 n in
    let r : w.strtonum (c ∷ cs) 0 int_max ≡ some n = rw (sym e) (reads n h) in rw (e, r) refl

not_empty : (xs : List ℕ) (c : ℕ) (ys : List ℕ) → (length (xs ++ (c ∷ ys)) == 0) ≡ false
not_empty [] c ys = ground arith
not_empty (x ∷ xs) c ys = ground arith

input_split_found :
    (w : World) (n m : ℕ)
    → ReadsNumbers w
    → n ≤ int_max
    → m ≤ int_max
    → input_split w (print_uint n ++ (b';' ∷ print_uint m)) ≡ some (some n ∷ some m ∷ [])
unfolding input_split read_params print_uint
input_split_found w n m reads h k =
    let parts =
      split_semicolon (print_uint n) (print_uint m) (digits_of-AreDigits 10 n)
        (digits_of-AreDigits 10 m) in
    rw
      (
        not_empty (print_uint n) b';' (print_uint m),
        parts,
        read_found w n reads h,
        read_found w m reads k,
      )
      refl

-- What `input_csi_dispatch` and the change of state behind it make of the two numbers.
dispatched :
    (w : World) (p : Pane) (n m : ℕ)
    → ReadsNumbers w
    → (0 < n) × (n ≤ int_max)
    → (0 < m) × (m ≤ int_max)
    → (q : Pane) × (switch_state w (some ground_state) (
          csi_dispatch w b'H' (collected (cleared p) (print_uint n ++ (b';' ∷ print_uint m)) false))
        ≡ q)
      × (q.base ≡ cursor_move p.base (m - 1) (n - 1))
      × (q.ictx.state ≡ ground_state)
unfolding csi_dispatch control on_screen input_get find_entry switch_state
dispatched w p n m reads (a, h) (b, k) =
    let s = input_split_found w n m reads h k in
    let least_n : ltb n 1 ≡ false = ground (arith, a) in
    let least_m : ltb m 1 ≡ false = ground (arith, b) in
    rw (s, least_n, least_m) (_, refl, refl, refl)

-- The sequence that moves the cursor (CUP) with the numbers `n` and `m` in decimal, sent in the ground
-- state, is read to its end and moves the cursor to line `n` and column `m`, counted from one, as
-- `screen_write_cursormove` does; the parser is in its ground state again. The numbers are from 1 to
-- INT_MAX, and `strtonum` reads a decimal number in this range.
pub cursor_position :
    (w : World) (p : Pane) (n m : ℕ)
    → ReadsNumbers w
    → p.ictx.state ≡ ground_state
    → (0 < n) × (n ≤ int_max)
    → (0 < m) × (m ≤ int_max)
    → (q : Pane) × (parse_bytes w p
          (0x1b ∷ b'[' ∷ (print_uint n ++ (b';' ∷ (print_uint m ++ (b'H' ∷ [])))))
        ≡ some q)
      × (q.base ≡ cursor_move p.base (m - 1) (n - 1))
      × (q.ictx.state ≡ ground_state)
cursor_position w p n m reads start h k =
    let (c, cs, e) = first_digit n in
    let digits = subst AreDigits e (print_uint-AreDigits n) in
    let two =
      two-AreParams cs (print_uint m) (tail-AreDigits c cs digits) (print_uint-AreDigits m) in
    let short_n : length (c ∷ cs) ≤ 10 = subst (λ x. length x ≤ 10) e (length-print_uint n) in
    let short : length (cs ++ (b';' ∷ print_uint m)) ≤ 62 =
      omega (arith, length-append cs (b';' ∷ print_uint m), length-print_uint m, short_n) in
    let (q, d, moved, st) = dispatched w p n m reads h k in
    let read =
      sequence_lem w p c (cs ++ (b';' ∷ print_uint m)) b'H' start (head-IsDigit c cs digits) two
        short (omega arith, omega arith) in
    let text : print_uint n ++ (b';' ∷ (print_uint m ++ (b'H' ∷ [])))
        ≡ c ∷ ((cs ++ (b';' ∷ print_uint m)) ++ (b'H' ∷ [])) =
      rw (e, append_assoc cs (b';' ∷ print_uint m) (b'H' ∷ [])) refl in
    let same =
      subst
        (λ x.
          switch_state w (some ground_state)
            (csi_dispatch w b'H' (collected (cleared p) (x ++ (b';' ∷ print_uint m)) false))
          ≡ q)
        e d in
    (q, rw text (read ∙ ap some same), moved, st)
