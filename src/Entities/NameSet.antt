-- ===== src/Entities/NameSet.antt =====
-- `BTreeSet<String>`, the queues of users to remove or to spectate, as an ascending list.
use Prim.Native.Nat.{Ordering}
use Prim.Native.String.{compare}
use private_poker.Prelude.{String, Bool, true, false, List, [], ◌∷◌, str_eq, if◌then◌else◌}

abbrev pub NameSet : Type 0
NameSet = List String

abbrev pub contains : String → NameSet → Bool
contains k [] = false
contains k (x ∷ xs) = if str_eq k x then true else contains k xs

abbrev pub remove : String → NameSet → NameSet
remove k [] = []
remove k (x ∷ xs) = if str_eq k x then xs else x ∷ remove k xs

-- In ascending order, with no name twice.
abbrev pub insert : String → NameSet → NameSet
insert k [] = k ∷ []
insert k (x ∷ xs) =
    let rest = insert k xs in
    elim (compare k x) [ Ordering.lt ↦ k ∷ x ∷ xs | Ordering.eq ↦ x ∷ xs | Ordering.gt ↦ x ∷ rest ]
