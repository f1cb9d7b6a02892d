-- ===== src/Fat/Linked.antt =====
-- Clusters that a table links, out of those that were free; for `fat12_create_file` of
-- include/fat12.h.
use advanced_os.Base.{
  ℕ, zero, suc, ◌+◌, ◌≤◌, ◌<◌, ◌≡◌, refl, sym, inr, List, [], ◌∷◌, subst, arith, ◌==◌,
  if◌then◌else◌, length, All,
}
use advanced_os.Fat.{fat_num_entry}
use advanced_os.Fat.Chain.{Chain, link, last}

-- The number of free entries among the `n` from `i` on.
abbrev pub free_count : (fat : ℕ → ℕ) → (n i : ℕ) → ℕ
free_count fat zero i = 0
free_count fat (suc n) i =
    let rest = free_count fat n (i + 1) in if fat i == 0 then suc rest else rest

-- `table` links `need` clusters that were free in `fat`, from the head `h` on.
pub record IsLinked (fat table : ℕ → ℕ) (i need h : ℕ) : Type 0 where
  pub clusters : List ℕ
  pub count : length clusters ≡ need
  pub chain : Chain table h clusters
  pub free : All (λ c. fat c ≡ 0) clusters
  pub above : i ≤ h
  pub below : h < fat_num_entry

pub cons-IsLinked :
    (fat table : ℕ → ℕ) (i need h : ℕ)
    → i < fat_num_entry
    → fat i ≡ 0
    → table i ≡ h
    → IsLinked fat table (i + 1) need h
    → IsLinked fat table i (suc need) i
cons-IsLinked fat table i need h inside free at l =
    let lo : i + 1 ≤ h = l.above in
    let hi : h < fat_num_entry = l.below in
    record {
      clusters = i ∷ l.clusters;
      count = omega (arith, l.count);
      chain = link (rw at (omega arith)) (subst (λ k. Chain table k l.clusters) (sym at) l.chain);
      free = (free, l.free);
      above = omega arith;
      below = inside;
    }

pub one-IsLinked :
    (fat table : ℕ → ℕ) (i : ℕ)
    → i < fat_num_entry
    → fat i ≡ 0
    → table i ≡ 0xFFF
    → IsLinked fat table i 1 i
one-IsLinked fat table i inside free at = record {
  clusters = i ∷ [];
  count = refl;
  chain = last (rw at (inr (omega arith)));
  free = (free, tt);
  above = omega arith;
  below = inside;
}

pub wider :
    (fat table : ℕ → ℕ) (i need h : ℕ)
    → IsLinked fat table (i + 1) need h
    → IsLinked fat table i need h
wider fat table i need h l = record {
  clusters = l.clusters;
  count = l.count;
  chain = l.chain;
  free = l.free;
  above = omega (arith, l.above);
  below = l.below;
}
