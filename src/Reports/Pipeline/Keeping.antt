-- ===== src/Reports/Pipeline/Keeping.antt =====
-- The stored results through the steps of a report job (app/v2/reports.py).
use mathlib.Core.Path.{subst}
use capstone_backend.Prelude.{ℕ, ◌≡◌, refl, sym, Bool, false, List, arith}
use capstone_backend.Errors.{Error, Result, ok, err, OnOk}
use capstone_backend.Settings.{Settings}
use capstone_backend.Budget
use capstone_backend.Newsmap.Data.{Article}
use capstone_backend.Jobs.Doc.{JobDoc}
use capstone_backend.Jobs.Steps.{update, checkpoint}
use capstone_backend.Reports.Data.{Text, Evidence, RagEvidence, ReportOutput}
use capstone_backend.Reports.Saved.Keeping.{IsConsistent}
use capstone_backend.Reports.Extraction.{reserve_budget}
use capstone_backend.Reports.Pipeline.{Services, charge}
use capstone_backend.World.{World, Exec, pure, raise, lift, clock, uuid4, continue, ◌>>=◌}
use capstone_backend.State.{session, get_job, get_map}
use capstone_backend.World.{catch}

saved-session : (cfg : Settings) (sid : ℕ) (w : World) → (session cfg sid false w).1.saved ≡ w.saved
unfolding session ◌>>=◌
saved-session cfg sid w = ground arith

saved-checkpoint :
    (cfg : Settings) (sid id token : ℕ) (w : World)
    → (checkpoint cfg sid id token w).1.saved ≡ w.saved
unfolding checkpoint ◌>>=◌ get_job get_map catch clock
saved-checkpoint cfg sid id token w = ground (arith, saved-session cfg sid w)

saved-update :
    (sid id token : ℕ) (changes : JobDoc → JobDoc) (w : World)
    → (update sid id token changes w).1.saved ≡ w.saved
unfolding update ◌>>=◌
saved-update sid id token changes w = ground arith

module _ (sha256 : Text → ℕ) where
  -- a step keeps the stored results consistent, and what it returns is as `P` says
  abbrev pub Keeps : {A : Type 0} → (A → World → Type 0) → Exec A → Type 0
  Keeps P m =
      (w : World)
      → IsConsistent sha256 w.saved
      → IsConsistent sha256 (m w).1.saved × OnOk (λ a. P a (m w).1) (m w).0

  abbrev pub Any : {A : Type 0} → A → World → Type 0
  Any a w = Unit

  any : {A : Type 0} (r : Result A) (w : World) → OnOk (λ a. Any a w) r
  any (ok a) w = tt
  any (err e) w = tt

  pub same : {A : Type 0} (m : Exec A) → ((w : World) → (m w).1.saved ≡ w.saved) → Keeps Any m
  same m h w v = (subst (IsConsistent sha256) (sym (h w)) v, any (m w).0 (m w).1)

  module _ {A B : Type 0} (P : B → World → Type 0) where
    continue-Keeps :
        (f : A → Exec B) (r : Result A) (w : World)
        → ((a : A) → Keeps P (f a))
        → IsConsistent sha256 w.saved
        → IsConsistent sha256 (continue r f w).1.saved
          × OnOk (λ b. P b (continue r f w).1) (continue r f w).0
    continue-Keeps f (ok a) w h v = h a w v
    continue-Keeps f (err e) w h v = (v, tt)

    pub bind :
        (m : Exec A) (f : A → Exec B) → Keeps Any m → ((a : A) → Keeps P (f a)) → Keeps P (m >>= f)
    unfolding ◌>>=◌
    bind m f k h w v = continue-Keeps f (m w).0 (m w).1 h (k w v).0

    -- where what the first step returns, and the world it leaves, matter
    continue_then :
        (Q : A → World → Type 0) (f : A → Exec B) (r : Result A) (w : World)
        → ((a : A) (u : World)
            → Q a u
            → IsConsistent sha256 u.saved
            → IsConsistent sha256 (f a u).1.saved × OnOk (λ b. P b (f a u).1) (f a u).0)
        → OnOk (λ a. Q a w) r
        → IsConsistent sha256 w.saved
        → IsConsistent sha256 (continue r f w).1.saved
          × OnOk (λ b. P b (continue r f w).1) (continue r f w).0
    continue_then Q f (ok a) w h q v = h a w q v
    continue_then Q f (err e) w h q v = (v, tt)

    pub bind_then :
        (Q : A → World → Type 0) (m : Exec A) (f : A → Exec B)
        → Keeps Q m
        → ((a : A) (u : World)
            → Q a u
            → IsConsistent sha256 u.saved
            → IsConsistent sha256 (f a u).1.saved × OnOk (λ b. P b (f a u).1) (f a u).0)
        → Keeps P (m >>= f)
    unfolding ◌>>=◌
    bind_then Q m f k h w v = continue_then Q f (m w).0 (m w).1 h (k w v).1 (k w v).0

  pub ended : {A : Type 0} (a : A) → Keeps Any (pure a)
  unfolding pure
  ended a w v = (v, tt)

  pub raised : {A : Type 0} (P : A → World → Type 0) (e : Error) → Keeps P (raise e)
  unfolding raise
  raised P e w v = (v, tt)

  pub clock-Keeps : Keeps Any clock
  unfolding clock
  clock-Keeps w v = (v, tt)

  pub uuid4-Keeps : Keeps Any uuid4
  unfolding uuid4
  uuid4-Keeps w v = (v, tt)

  pub lift-Keeps : {A : Type 0} (r : Result A) → Keeps Any (lift r)
  unfolding lift
  lift-Keeps r w v = (v, any r w)

  pub checkpoint-Keeps :
      (cfg : Settings) (sid id token : ℕ) → Keeps Any (checkpoint cfg sid id token)
  checkpoint-Keeps cfg sid id token =
      same (checkpoint cfg sid id token) (saved-checkpoint cfg sid id token)

  pub update-Keeps :
      (sid id token : ℕ) (changes : JobDoc → JobDoc) → Keeps Any (update sid id token changes)
  update-Keeps sid id token changes =
      same (update sid id token changes) (saved-update sid id token changes)

  -- what the services outside do to the stored results: they keep them consistent
  pub record KeepsSaved (s : Services) : Type 0 where
    pub attempt : (k d : ℕ) (c : Bool) (a : Article) → Keeps Any (s.attempt k d c a)
    pub sleep : (gap : ℕ) → Keeps Any (s.sleep gap)
    pub rag_rows : (id n : ℕ) → Keeps Any (s.rag_rows id n)
    pub analysis : (e : List Evidence) (r : List RagEvidence) → Keeps Any (s.analysis e r)
    pub critic :
        (o : ReportOutput) (e : List Evidence) (r : List RagEvidence) → Keeps Any (s.critic o e r)

  -- The reservation of a stage leaves the stored results alone.
  pub charge-Keeps :
      (cfg : Settings) (s : Services) (sid id token : ℕ) (o : Budget.Operation)
      → Keeps Any (charge cfg s sid id token o)
  unfolding charge reserve_budget
  charge-Keeps cfg s sid id token o = same (charge cfg s sid id token o) (λ w. refl)
