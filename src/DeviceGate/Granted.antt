-- ===== src/DeviceGate/Granted.antt =====
-- The permits of an admission only bring the gate forward.
use yz_agent.Prelude.{
  ℕ, refl, String, Bool, List, [], ◌∷◌, nat_eq, string_eq, if◌then◌else◌, Option, none, some,
  lookup, erase, arith,
}
use yz_agent.DeviceGate.Types.{SourceKey, SourceState, Flight, Manager, source_of, key_eq}
use yz_agent.DeviceGate.Lease.{GateError}
use yz_agent.DeviceGate.Session.{Answer, failed_with, answered}
use yz_agent.DeviceGate.Grant.{
  admit_error, source_for, grant_one, grant, grant_all, admit_found, admit,
}
use yz_agent.DeviceGate.Grows.{
  Grows, Grows-refl, Grows-trans, choice-Grows, steady-Grows, new_source-Grows,
}
use yz_agent.DeviceGate.Permitted.{permit_locked-Grows}

module _ {bound : ℕ} {same : Bool} where
  source_for-Grows :
      (key : SourceKey) (lease : String) (found : Option (ℕ × SourceState)) (m : Manager)
      → Grows bound same m (source_for key lease found m).0
  unfolding source_for
  source_for-Grows key lease none m = new_source-Grows key lease m
  source_for-Grows key lease (some (n, s)) m = Grows-refl m

  grant_one-Grows :
      (now : ℕ) (key : SourceKey) (lease : String) (w : ℕ) (m : Manager)
      → Grows bound same m (grant_one now key lease w m).0
  unfolding grant_one
  grant_one-Grows now key lease w m =
      let (m1, n) = source_for key lease (source_of key m) m in
      Grows-trans (source_for-Grows key lease (source_of key m) m) (permit_locked-Grows now n m1)

  grant-Grows :
      (now : ℕ) (gone : ℕ → Bool) (key : SourceKey) (lease : String) (ws : List ℕ) (m : Manager)
      → Grows bound same m (grant now gone key lease ws m).0
  unfolding grant
  grant-Grows now gone key lease [] m = Grows-refl m
  grant-Grows now gone key lease (w ∷ ws) m =
      let first : Manager × List (ℕ × ℕ) =
        if gone w then (m, []) else grant_one now key lease w m in
      Grows-trans
        (choice-Grows (gone w) (m, []) (grant_one now key lease w m) (Grows-refl m)
          (grant_one-Grows now key lease w m))
        (grant-Grows now gone key lease ws first.0)

  grant_all-Grows :
      (now : ℕ) (gone : ℕ → Bool) (key : SourceKey) (lease : String) (ws : List ℕ)
      (err : Option GateError) (m : Manager)
      → Grows bound same m (grant_all now gone key lease ws err m).0
  grant_all-Grows now gone key lease ws (some e) m = Grows-refl m
  grant_all-Grows now gone key lease ws none m = grant-Grows now gone key lease ws m

  admit_found-Grows :
      (now : ℕ) (ended stopped : Bool) (gone : ℕ → Bool) (key : SourceKey) (run : String)
      (answer : Answer String) (found : Option Flight) (m : Manager)
      → Grows bound same m (admit_found now ended stopped gone key run answer found m).0
  admit_found-Grows now ended stopped gone key run answer none m = Grows-refl m
  admit_found-Grows now ended stopped gone key run (failed_with e) (some f) m =
      steady-Grows m (record m { flights = erase key m.flights }) (omega arith) (omega arith) refl
        refl refl (λ h. h)
  admit_found-Grows now ended stopped gone key run (answered lease) (some f) m =
      let err = admit_error now ended stopped key run f lease m in
      let m1 = (grant_all now gone key lease f.waiters err m).0 in
      Grows-trans (grant_all-Grows now gone key lease f.waiters err m) (
        steady-Grows m1 (record m1 { flights = erase key m1.flights }) (omega arith) (omega arith)
          refl refl refl (λ h. h))

  pub admit-Grows :
      (now : ℕ) (ended stopped : Bool) (gone : ℕ → Bool) (key : SourceKey) (run : String)
      (answer : Answer String) (m : Manager)
      → Grows bound same m (admit now ended stopped gone key run answer m).0
  unfolding admit
  admit-Grows now ended stopped gone key run answer m =
      admit_found-Grows now ended stopped gone key run answer (lookup key m.flights) m
