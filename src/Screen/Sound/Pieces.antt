-- ===== src/Screen/Sound/Pieces.antt =====
-- screen-write.c: a round of the loops over a text reads a character whose bytes are there, or a byte.
use tmux_cvs_archived.Prelude.{
  ℕ, ◌+◌, ◌-◌, ◌≤◌, ◌<◌, ◌≡◌, refl, ◌∙◌, Bool, true, false, not, some, List, [], ◌∷◌, ltb, ◌==◌,
  length, arith, Bool-cases, inl, inr, ◌&&◌, ap,
}
use tmux_cvs_archived.Utf8.{Utf8Data, Tree, open_utf8}
use tmux_cvs_archived.Utf8.Pieces.{append_found, opened_or_not}
use tmux_cvs_archived.Screen.Text.{Piece, wide, single, cut_off, collect, opened_piece, next_piece}
use tmux_cvs_archived.Screen.Sound.Write.{IsFilled}

-- `utf8_append` until the sequence is complete: it is when the bytes are there.
collect_found :
    (root : Tree) (ud : Utf8Data) (bs : List ℕ)
    → length ud.bytes < ud.size
    → ud.size ≤ 4
    → ud.size ≤ length ud.bytes + length bs
    → (r : Utf8Data × List ℕ) × (collect root ud bs ≡ some r)
      × IsFilled (r.0)
      × (length (r.1) ≤ length bs)
unfolding collect
collect_found root ud [] h k e = absurd (omega (arith, h, e))
collect_found root ud (b ∷ bs) h k e =
    let (r, found, more, l, m) = append_found root ud b h k in
    elim (Bool-cases (length ud.bytes + 1 == ud.size)) [
      | inl last ↦
          let whole : r.0 ≡ false = more ∙ ap not last in
          rw (found, whole) (_, refl, (omega (arith, m, h), omega (arith, m, k)), omega arith)
      | inr not_last ↦
          let goes_on : r.0 ≡ true = more ∙ ap not not_last in
          let (q, further, filled, less) =
            collect_found root (r.1) bs (ground (arith, l, m, h, not_last)) (omega (arith, m, k))
              (omega (arith, l, m, e)) in
          rw (found, goes_on, further) (q, refl, filled, omega (arith, less))
    ]

-- What a round reads is a character whose bytes are there, or a byte.
abbrev pub IsReadable : ℕ → Piece → Type 0
IsReadable n (wide ud rest) = IsFilled ud × (length rest ≤ n)
IsReadable n (single b rest) = length rest ≤ n
IsReadable n cut_off = Unit

pub next_piece_found :
    (root : Tree) (utf8flag : Bool) (c : ℕ) (rest : List ℕ)
    → (piece : Piece) × (next_piece root utf8flag c rest ≡ some piece)
      × IsReadable (length rest) piece
unfolding next_piece
next_piece_found root utf8flag c rest = elim (Bool-cases (utf8flag && ltb 0x7f c)) [
  | inr byte ↦ rw byte (single c rest, refl, omega arith)
  | inl high ↦ elim (opened_or_not root c) [
    | inl none_open ↦ rw (high, none_open) (single c rest, refl, omega arith)
    | inr found ↦ rw high (opened_found found)
  ]
]
  where
    opened_found :
        (ud : Utf8Data) × (open_utf8 root c ≡ some ud)
          × (length ud.bytes ≡ 1)
          × (2 ≤ ud.size)
          × (ud.size ≤ 4)
        → (piece : Piece) × (opened_piece root c rest (open_utf8 root c) ≡ some piece)
          × IsReadable (length rest) piece
    opened_found (ud, found, one, two, four) = elim (Bool-cases (ltb (length rest) (ud.size - 1))) [
      | inl short ↦ rw (found, short) (cut_off, refl, tt)
      | inr enough ↦
          let (q, whole, filled, less) =
            collect_found root ud rest (omega (arith, one, two)) four
              (ground (arith, one, two, enough)) in
          rw (found, enough, whole) (wide (q.0) (q.1), refl, (filled, less))
    ]
