-- ===== src/Text/Lines.antt =====
-- A text made of lines is split back into them.
use aliasdeck.Prelude.{ℕ, ◌≡◌, refl, List, [], ◌∷◌, ◌++◌, append_assoc, All, arith}
use aliasdeck.Text.{Bytes, newline, split}
use aliasdeck.Text.Search.{Lacks}

-- Every line with its newline.
abbrev pub unlines : List Bytes → Bytes
unlines [] = []
unlines (l ∷ ls) = l ++ newline ∷ unlines ls

pub unlines-append : (xs ys : List Bytes) → unlines (xs ++ ys) ≡ unlines xs ++ unlines ys
unlines-append [] ys = refl
unlines-append (x ∷ xs) ys = rw (unlines-append xs ys, append_assoc x)

pub split-line : (c : ℕ) (l rest : Bytes) → Lacks c l → split c (l ++ c ∷ rest) ≡ l ∷ split c rest
unfolding split
split-line c [] rest h = ground arith
split-line c (d ∷ l) rest h = ground (arith, split-line c l rest h.1)

pub split-unlines :
    (ls : List Bytes) → All (Lacks newline) ls → split newline (unlines ls) ≡ ls ++ [] ∷ []
unfolding split
split-unlines [] h = refl
split-unlines (l ∷ ls) h = rw (split-line newline l (unlines ls) h.0, split-unlines ls h.1)
