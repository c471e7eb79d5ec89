-- ===== src/Sharding/Ring/Replace.antt =====
-- `SetNodes`, and when the generation moves.
use jaydb.Base.{
  is_some, ◌≡◌, refl, sym, ap, ◌∙◌, ◌↔◌, inl, inr, List, [], ◌∷◌, Str, Bool, true, false, not, ◌&&◌,
  arith, length, lookup, str_eq, ◌==◌, str_eq_refl, Bool-cases, contains, IsAscending, sort,
  contains-sort, sort-IsAscending, IsAscending-unique,
}
use jaydb.Sharding.Ring.{Ring, add_node, remove_node, set_nodes, has_node, dedup, keys, identical}
use jaydb.Sharding.Ring.Invariant.{
  IsRing, add_node-IsRing, remove_node-IsRing, has_node-add_node, has_node-remove_node,
  contains-keys, dedup-IsDistinct, lookup-dedup, identical-eq,
}

-- The nodes that `SetNodes` computes from its argument.
abbrev new_nodes : List Str → List Str
new_nodes addrs = sort (keys (dedup addrs []))

abbrev unchanged : Ring → List Str → Bool
unchanged r addrs =
    (length (new_nodes addrs) == length r.nodes) && identical (new_nodes addrs) r.nodes

new_nodes-IsAscending : (addrs : List Str) → IsAscending (new_nodes addrs)
unfolding keys
new_nodes-IsAscending addrs = sort-IsAscending _ (dedup-IsDistinct addrs [] tt)

contains-new_nodes :
    (addrs : List Str) (k : Str)
    → contains (new_nodes addrs) k ≡ is_some (lookup k (dedup addrs []))
contains-new_nodes addrs k =
    contains-sort (keys (dedup addrs [])) k ∙ contains-keys (dedup addrs []) k

lookup-dedup_nil :
    (addrs : List Str) (k : Str)
    → is_some (lookup k (dedup addrs [])) ≡ (contains addrs k && not (str_eq k []))
unfolding lookup
lookup-dedup_nil addrs k = lookup-dedup addrs [] k

unchanged-eq : (r : Ring) (addrs : List Str) → unchanged r addrs ≡ true → new_nodes addrs ≡ r.nodes
unchanged-eq r addrs h = identical-eq (new_nodes addrs) r.nodes (ground arith)

identical_self : (xs : List Str) → identical xs xs ≡ true
unfolding identical
identical_self [] = refl
identical_self (x ∷ xs) = ground (arith, str_eq_refl x, identical_self xs)

unchanged_of_eq :
    (r : Ring) (addrs : List Str) → new_nodes addrs ≡ r.nodes → unchanged r addrs ≡ true
unchanged_of_eq r addrs e = rw e (ground (arith, identical_self r.nodes))

-- After `SetNodes` the members are the addresses of its argument that are not empty.
pub has_node-set_nodes :
    (r : Ring) (addrs : List Str) (k : Str)
    → IsRing r
    → has_node (set_nodes r addrs) k ≡ (contains addrs k && not (str_eq k []))
unfolding set_nodes has_node
has_node-set_nodes r addrs k v = elim (Bool-cases (unchanged r addrs)) [
  | inl e ↦ rw e (
      sym (v.members k)
      ∙ ap (λ l. contains l k) (sym (unchanged-eq r addrs e))
      ∙ contains-new_nodes addrs k
      ∙ lookup-dedup_nil addrs k)
  | inr e ↦ rw e (lookup-dedup_nil addrs k)
]

pub set_nodes-IsRing : (r : Ring) (addrs : List Str) → IsRing r → IsRing (set_nodes r addrs)
unfolding set_nodes has_node
set_nodes-IsRing r addrs v = elim (Bool-cases (unchanged r addrs)) [
  | inl e ↦ rw e v
  | inr e ↦ rw e (record {
    ascending = new_nodes-IsAscending addrs;
    members = contains-new_nodes addrs;
    counter = omega arith;
  })
]

-- The membership changes of a ring.
pub data Event : Type 0 where
  add remove : Str → Event
  replace : List Str → Event

unfoldable pub step : Ring → Event → Ring
step r (add a) = add_node r a
step r (remove a) = remove_node r a
step r (replace addrs) = set_nodes r addrs

pub step-IsRing : (r : Ring) (e : Event) → IsRing r → IsRing (step r e)
unfolding step
step-IsRing r (add a) v = add_node-IsRing r a v
step-IsRing r (remove a) v = remove_node-IsRing r a v
step-IsRing r (replace addrs) v = set_nodes-IsRing r addrs v

-- The generation stands still exactly if the whole ring does.
still : (r : Ring) (e : Event) → IsRing r → (step r e).generation ≡ r.generation → step r e ≡ r
unfolding step add_node remove_node set_nodes
still r (add a) v h = ground arith
still r (remove a) v h = ground arith
still r (replace addrs) v h = elim (Bool-cases (unchanged r addrs)) [
  | inl q ↦ rw q
  | inr q ↦ absurd (ground arith)
]

same_members :
    (r : Ring) (e : Event)
    → IsRing r
    → ((k : Str) → has_node (step r e) k ≡ has_node r k)
    → (step r e).generation ≡ r.generation
unfolding step
same_members r (add a) v h =
    let q : has_node r a ≡ true = ground (arith, h a, has_node-add_node r a a, str_eq_refl a) in
    unfold add_node has_node in ground arith
same_members r (remove a) v h =
    let q : has_node r a ≡ false = ground (arith, h a, has_node-remove_node r a a, str_eq_refl a) in
    unfold remove_node has_node in ground arith
same_members r (replace addrs) v h =
    let q : unchanged r addrs ≡ true = unchanged_of_eq r addrs (
      IsAscending-unique (new_nodes addrs) r.nodes (new_nodes-IsAscending addrs) v.ascending (λ k.
        contains-new_nodes addrs k
        ∙ lookup-dedup_nil addrs k
        ∙ sym (has_node-set_nodes r addrs k v)
        ∙ h k
        ∙ sym (v.members k))) in
    unfold set_nodes in rw q refl

-- A membership call moves the generation exactly if it changes which nodes are members.
pub step-generation :
    (r : Ring) (e : Event)
    → IsRing r
    → ((step r e).generation ≡ r.generation) ↔ ((k : Str) → has_node (step r e) k ≡ has_node r k)
step-generation r e v = (λ h k. ap (λ (s : Ring). has_node s k) (still r e v h), same_members r e v)
