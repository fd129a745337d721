-- ===== src/Service/Loop/Routing.antt =====
-- Which processor gets which request.
use virtualdisk.Prelude.{
  ℕ, ◌≡◌, refl, inl, inr, Bool-cases, Option, none, some, Option-cases, List, [], ◌∷◌, arith, ◌==◌,
  if◌then◌else◌,
}
use virtualdisk.Irp.{Request}
use virtualdisk.Service.Table.{find}
use virtualdisk.Service.Loop.{Fetch, get_request, hand_over, run}

-- The requests for a disk among those that are fetched before the loop ends.
unfoldable pub requests_for : ℕ → List Fetch → List Request
requests_for j [] = []
requests_for j (f ∷ fs) =
    let later = requests_for j fs in
    if get_request f then (if f.req.handle == j then f.req ∷ later else later) else []

module _ {P : Type 0} (process : P → Request → P) where
  -- A processor, if there is one, after one call of ProcessRequest for each of the requests.
  unfoldable pub handed : Option P → List Request → Option P
  handed o [] = o
  handed none (r ∷ rs) = none
  handed (some p) (r ∷ rs) = handed (some (process p r)) rs

  handed-none : (rs : List Request) → handed none rs ≡ none
  unfolding handed
  handed-none [] = refl
  handed-none (r ∷ rs) = refl

  find-hand_over :
      (j : ℕ) (r : Request) (disks : List (ℕ × P))
      → find ◌==◌ j (hand_over process disks r)
        ≡ (if r.handle == j then handed (find ◌==◌ j disks) (r ∷ []) else find ◌==◌ j disks)
  unfolding find hand_over handed
  find-hand_over j r [] = ground arith
  find-hand_over j r ((k, p) ∷ rest) = elim (Option-cases (find ◌==◌ j rest)) [
    | inl e ↦ ground (arith, e, find-hand_over j r rest)
    | inr (q, e) ↦ ground (arith, e, find-hand_over j r rest)
  ]

  -- Whatever ProcessRequest does: Run calls it on each processor once for each request whose handle
  -- is its disk's number, and for no others, in the order in which they are fetched, until the fetch
  -- that ends the loop; requests for a disk that is not known are dropped.
  pub run_routes :
      (j : ℕ) (fs : List Fetch) (disks : List (ℕ × P))
      → find ◌==◌ j (run process disks fs).0 ≡ handed (find ◌==◌ j disks) (requests_for j fs)
  unfolding run requests_for handed
  run_routes j [] disks = ground arith
  run_routes j (f ∷ fs) disks = elim (Bool-cases (get_request f)) [
    | inr e ↦ ground (arith, e)
    | inl e ↦
        let later = run_routes j fs (hand_over process disks f.req) in
        let now = find-hand_over j f.req disks in
        elim (Option-cases (find ◌==◌ j disks)) [
          | inl g ↦ ground (arith, e, g, later, now, handed-none (requests_for j fs))
          | inr (p, g) ↦ ground (arith, e, g, later, now)
        ]
  ]
