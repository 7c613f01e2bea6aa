-- ===== src/Config/Labels.antt =====
-- The test of src/config.c that no two nodes have the same label.
use rpcracer.Prelude.{ℕ, ◌≡◌, ◌≢◌, ◌↔◌, arith, true, false, List, [], ◌∷◌}
use rpcracer.Framing.{Lacks, c_str, str_eq}
use rpcracer.Config.{NodeConfig, has_label, unique_labels}

pub c_str-Lacks : (xs : List ℕ) → Lacks 0 (c_str xs)
unfolding c_str
c_str-Lacks [] = tt
c_str-Lacks (x ∷ xs) = ground (arith, c_str-Lacks xs)

-- For texts without a NUL, strcmp is equality.
str_eq_iff : (s t : List ℕ) → Lacks 0 s → Lacks 0 t → (str_eq s t ≡ true) ↔ (s ≡ t)
unfolding str_eq
str_eq_iff [] [] hs ht = ground arith
str_eq_iff [] (c ∷ cs) hs ht = ground arith
str_eq_iff (x ∷ xs) [] hs ht = ground arith
str_eq_iff (x ∷ xs) (c ∷ cs) hs ht = ground (arith, str_eq_iff xs cs hs.1 ht.1)

-- The label is none of the others' labels.
abbrev pub IsNew : List ℕ → List NodeConfig → Type 0
IsNew label [] = Unit {0}
IsNew label (n ∷ ns) = (label ≢ n.label) × IsNew label ns

-- No two nodes have the same label.
abbrev pub HasDistinctLabels : List NodeConfig → Type 0
HasDistinctLabels [] = Unit {0}
HasDistinctLabels (n ∷ ns) = IsNew n.label ns × HasDistinctLabels ns

abbrev pub HasTextLabels : List NodeConfig → Type 0
HasTextLabels [] = Unit {0}
HasTextLabels (n ∷ ns) = Lacks 0 n.label × HasTextLabels ns

has_label_iff :
    (label : List ℕ) (ns : List NodeConfig)
    → Lacks 0 label
    → HasTextLabels ns
    → (has_label label ns ≡ false) ↔ IsNew label ns
unfolding has_label
has_label_iff label [] l h = ground arith
has_label_iff label (n ∷ ns) l h =
    ground (arith, str_eq_iff label n.label l h.0, has_label_iff label ns l h.1)

-- For labels that are texts without a NUL, as every label that is read from the file is, the two
-- loops accept the nodes exactly if no two of them have the same label.
pub unique_labels_iff :
    (ns : List NodeConfig) → HasTextLabels ns → (unique_labels ns ≡ true) ↔ HasDistinctLabels ns
unfolding unique_labels
unique_labels_iff [] h = ground arith
unique_labels_iff (n ∷ ns) h =
    ground (arith, has_label_iff n.label ns h.0 h.1, unique_labels_iff ns h.1)
