-- ===== src/Winlink/Tests.antt =====
-- Runs of window.c on three winlinks, and the theorems on them at these.
use tmux_cvs_archived.Prelude.{ℕ, ◌≡◌, refl, some, List, [], ◌∷◌, arith}
use tmux_cvs_archived.Winlink.{Winlink, next_index, next_by_number, previous_by_number, count}
use tmux_cvs_archived.Winlink.Around.{previous_by_number-next_by_number}
use tmux_cvs_archived.Winlink.Numbers.{Search, next_index_lem}
use tmux_cvs_archived.Winlink.Order.{From}

abbrev link_at : ℕ → Winlink
link_at i = record { idx = i; window = some i; flags = 0 }

abbrev three : List Winlink
three = link_at 0 ∷ link_at 2 ∷ link_at 5 ∷ []

three-From : From 0 three
three-From = (omega arith, (omega arith, (omega arith, tt)))

next_free : next_index three 2 ≡ some 3
unfolding next_index
next_free = refl

next_index_lem_example : Search three 2 (next_index three 2)
next_index_lem_example =
    next_index_lem three 2 three-From (omega arith) (unfold count in omega arith)

previous_by_number-next_by_number_example :
    (i : ℕ) × (next_by_number three 2 5 ≡ some i) × (previous_by_number three i 5 ≡ some 2)
previous_by_number-next_by_number_example =
    previous_by_number-next_by_number three 1 5 (link_at 2) three-From refl
