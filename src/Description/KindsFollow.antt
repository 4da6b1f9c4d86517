-- ===== src/Description/KindsFollow.antt =====
-- The six loops of ParseXML::parse (fast_mcpat/XML_Parse.cc) beside a reader of the list.
use Prim.Native.Nat.{◌^◌}
use wattwatcher.Prelude.{
  ℕ, ◌+◌, ◌≤◌, ◌<◌, Option, List, String, ◌≡◌, refl, sym, ap, subst, ◌∙◌, arith,
}
use wattwatcher.Double.{Double}
use wattwatcher.Text.{ℤ}
use wattwatcher.Description.{Run, ◌>>=◌}
use wattwatcher.Description.Document.{Component}
use wattwatcher.Description.Root.{RootSystem}
use wattwatcher.Description.Counts.{counts, Keeps}
use wattwatcher.Description.Ranges.{KindInRange, InRange}
use wattwatcher.Description.Unchanged.{
  KeepsCounts, read_core-KeepsCounts, read_l1_directory-KeepsCounts, read_l2_directory-KeepsCounts,
  read_l2-KeepsCounts, read_l3-KeepsCounts,
}
use wattwatcher.Description.Taking.{taken, total, take_kind, take_networks, take_kinds}
use wattwatcher.Description.Components.{
  read_core, read_l1_directory, read_l2_directory, read_l2, read_l3,
}
use wattwatcher.Description.Parse.{next_order, read_cores, read_kind, read_networks, read_kinds}
use wattwatcher.Description.OrderRange.{
  next_order-taken, taken-le, rounds-taken, first_order-taken, first_taken-le,
}
use wattwatcher.Description.Follow.{
  front, Follows, follow, group-Follows, start-Follows, nocs-Follows, At,
}

module _ {F : Type 0} ⦃d : Double F⦄ (cs : List Component) (s0 : RootSystem F)
    (range : InRange (counts s0)) where
  range_at : (s : RootSystem F) → Keeps s0 s → InRange (counts s)
  range_at s keeps = subst InRange (sym keeps) range

  -- A kind that has n components, as a function of the counts c.
  kind-Follows :
      (attribute : Component → Option String) (word : String)
      (read : ℕ → Component → RootSystem F → Run (RootSystem F))
      (homogeneous number : RootSystem F → ℤ) (c : ℤ × ℤ) (t : ℕ)
      → KeepsCounts read
      → ((s : RootSystem F) → Keeps s0 s → (homogeneous s, number s) ≡ c)
      → KindInRange c
      → t + 1024 < 2 ^ 32
      → (r : ℕ × RootSystem F) → At cs s0 t r
      → Follows cs
          (At cs s0 (t + taken (c.0) (c.1)))
          (take_kind attribute word read homogeneous number (front cs r))
          (read_kind attribute word read homogeneous number cs r)
  unfolding take_kind read_kind
  kind-Follows attribute word read homogeneous number c t keep same k lt (o, s) (e, keeps) =
      let h = homogeneous s in
      let n = number s in
      let k' : KindInRange (h, n) = subst KindInRange (sym (same s keeps)) k in
      let short : o + 1024 < 2 ^ 32 = omega (arith, e, lt) in
      let next = next_order-taken h n o short k' in
      let rounds = rounds-taken h n o short k' in
      let done_so_far : t + taken (c.0) (c.1) ≡ taken h n + (o + 1) =
        ap (λ c. t + taken (c.0) (c.1)) (sym (same s keeps)) ∙ omega (arith, e) in
      rw (rounds, done_so_far)
        (group-Follows cs attribute word read keep s0 (taken h n) (next_order h n o) (o + 1) s
          (omega (arith, next)) keeps)

  networks-Follows :
      (t : ℕ)
      → t + 1024 < 2 ^ 32
      → (r : ℕ × RootSystem F) → At cs s0 t r
      → Follows cs
          (At cs s0 (t + taken s0.homogeneous_nocs s0.number_of_nocs))
          (take_networks (front cs r))
          (read_networks cs r)
  unfolding take_networks read_networks
  networks-Follows t lt (o, s) (e, keeps) =
      let h = s.homogeneous_nocs in
      let n = s.number_of_nocs in
      let short : o + 1024 < 2 ^ 32 = omega (arith, e, lt) in
      let next = next_order-taken h n o short (range_at s keeps).nocs in
      let rounds = rounds-taken h n o short (range_at s keeps).nocs in
      let sum : t + taken h n ≡ taken h n + (o + 1) = omega (arith, e) in
      let done_so_far : t + taken s0.homogeneous_nocs s0.number_of_nocs ≡ taken h n + (o + 1) =
        ap (λ c. t + taken (c.nocs.0) (c.nocs.1)) (sym keeps) ∙ sum in
      rw (rounds, done_so_far)
        (nocs-Follows cs s0 (taken h n) (next_order h n o) (o + 1) s (omega (arith, next)) keeps)

  cores_le : taken s0.homogeneous_cores s0.number_of_cores ≤ 1024
  cores_le = first_taken-le s0.homogeneous_cores s0.number_of_cores range.cores.0 range.cores.1

  cores-Follows :
      Follows cs
        (At cs s0 (taken s0.homogeneous_cores s0.number_of_cores))
        (take_kind
          (λ c. c.name)
          "core"
          read_core
          (λ s. s.homogeneous_cores)
          (λ s. s.number_of_cores)
          (cs, s0))
        (read_cores cs s0)
  unfolding take_kind read_cores
  cores-Follows =
      let first =
        first_order-taken s0.homogeneous_cores s0.number_of_cores range.cores.0 range.cores.1 in
      rw first
        (start-Follows cs (λ c. c.name) "core" read_core read_core-KeepsCounts s0 _ _ s0 first refl)

  then_kind :
      (attribute : Component → Option String) (word : String)
      (read : ℕ → Component → RootSystem F → Run (RootSystem F))
      (homogeneous number : RootSystem F → ℤ) (c : ℤ × ℤ) (t : ℕ)
      (m' : Run (List Component × RootSystem F)) (m : Run (ℕ × RootSystem F))
      → Follows cs (At cs s0 t) m' m
      → KeepsCounts read
      → ((s : RootSystem F) → Keeps s0 s → (homogeneous s, number s) ≡ c)
      → KindInRange c
      → t + 1024 < 2 ^ 32
      → Follows cs
          (At cs s0 (t + taken (c.0) (c.1)))
          (m' >>= take_kind attribute word read homogeneous number)
          (m >>= read_kind attribute word read homogeneous number cs)
  then_kind attribute word read homogeneous number c t m' m before keep same k lt =
      follow cs (At cs s0 t) (At cs s0 (t + taken (c.0) (c.1))) m' m _ _ before
        (kind-Follows attribute word read homogeneous number c t keep same k lt)

  pub kinds-Follows :
      Follows cs (At cs s0 (total (counts s0))) (take_kinds (cs, s0)) (read_kinds cs s0)
  unfolding take_kinds read_kinds
  kinds-Follows =
      let c = counts s0 in
      let l1 = taken-le c.l1_directories range.l1_directories in
      let l2 = taken-le c.l2_directories range.l2_directories in
      let l3 = taken-le c.l2s range.l2s in
      let l4 = taken-le c.l3s range.l3s in
      let l0 : taken (c.cores.0) (c.cores.1) ≤ 1024 = cores_le in
      follow cs (At cs s0 _) (At cs s0 (total c)) _ _ take_networks (read_networks cs)
        (then_kind (λ c. c.name) "L3" read_l3 (λ s. s.homogeneous_l3s) (λ s. s.number_of_l3s) c.l3s
          _ _ _
          (then_kind (λ c. c.name) "L2" read_l2 (λ s. s.homogeneous_l2s) (λ s. s.number_of_l2s)
            c.l2s _ _ _
            (then_kind (λ c. c.id) "L2Directory" read_l2_directory
              (λ s. s.homogeneous_l2_directories) (λ s. s.number_of_l2_directories) c.l2_directories
              _ _ _
              (then_kind (λ c. c.id) "L1Directory" read_l1_directory
                (λ s. s.homogeneous_l1_directories) (λ s. s.number_of_l1_directories)
                c.l1_directories _ _ _ cores-Follows read_l1_directory-KeepsCounts
                (λ s e. ap (λ c. c.l1_directories) e) range.l1_directories (omega (arith, l0)))
              read_l2_directory-KeepsCounts (λ s e. ap (λ c. c.l2_directories) e)
              range.l2_directories (omega (arith, l0, l1)))
            read_l2-KeepsCounts (λ s e. ap (λ c. c.l2s) e) range.l2s (omega (arith, l0, l1, l2)))
          read_l3-KeepsCounts (λ s e. ap (λ c. c.l3s) e) range.l3s (omega (arith, l0, l1, l2, l3)))
        (networks-Follows _ (omega (arith, l0, l1, l2, l3, l4)))
