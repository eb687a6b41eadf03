-- ===== src/Paste/Tests.antt =====
-- The theorems on paste buffers at a stack of three.
use tmux_cvs_archived.Prelude.{ℕ, ◌≡◌, refl, some, [], ◌∷◌, length, arith, le_refl}
use tmux_cvs_archived.Paste.{Buffer, Stack, add, free_index, print}
use tmux_cvs_archived.Paste.Laws.{add_lem, print_cut}

abbrev buffer : ℕ → Buffer
buffer b = record { bytes = b ∷ b ∷ []; size = 2 }

abbrev three : Stack
three = buffer b'a' ∷ buffer b'b' ∷ buffer b'c' ∷ []

abbrev long : Buffer
long = record { bytes = b'a' ∷ b'b' ∷ b'c' ∷ b'd' ∷ b'e' ∷ []; size = 5 }

add_lem_example :
    add three (b'x' ∷ b'x' ∷ []) 2 3 ≡ some (buffer b'x' ∷ buffer b'a' ∷ buffer b'b' ∷ [])
add_lem_example = add_lem three (b'x' ∷ b'x' ∷ []) 2 3 (omega arith) (omega arith)

freed : free_index three 1 ≡ some (buffer b'a' ∷ buffer b'c' ∷ [])
unfolding free_index
freed = refl

print_cut_example : print (λ bs. bs) long 4 ≡ b'a' ∷ b'.' ∷ b'.' ∷ []
print_cut_example =
    print_cut (λ bs. bs) long 4 (λ bs. le_refl (length bs)) (omega arith) (omega arith)
      (omega arith)
