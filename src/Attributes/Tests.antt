-- ===== src/Attributes/Tests.antt =====
-- Texts of attributes.
use tmux_cvs_archived.Prelude.{◌≡◌, refl, some, none, codes}
use tmux_cvs_archived.Attributes.{from_string}

bold_or_dim : from_string (codes "Bold | dim") ≡ some 3
unfolding from_string
bold_or_dim = refl

ends_in_delimiter : from_string (codes "dim,") ≡ none
unfolding from_string
ends_in_delimiter = refl
