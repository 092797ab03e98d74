-- ===== src/Payments/Once.antt =====
-- How often is charged.
use browseterm_server_local.Prelude.{ℕ, suc, String, ◌≤◌, ◌≡◌, refl, [], ◌∷◌, arith}
use browseterm_server_local.Python.Error.{Reply, returned, raised}
use browseterm_server_local.World.Messages.{GrpcPaymentRequest, GrpcPaymentResponse}
use browseterm_server_local.World.Events.{Env, Log, payment_rpc}
use browseterm_server_local.World.Action.{
  World, Action, Outcome, ok, err, hanging, perform, of_reply,
}
use browseterm_server_local.World.Rules.{
  Keeps, Keeps-pure, Keeps-lift, Keeps-asks, Keeps-gets, Keeps-validated,
}
use browseterm_server_local.World.Trace.{
  Post, Runs, Runs-bind, Runs-keeps, Runs-weaken, Runs-try_except,
}
use browseterm_server_local.Web.{Request, State}
use browseterm_server_local.Payments
use browseterm_server_local.Payments.Calls.{
  Keeps-payment_service, Keeps-payment_failed, Keeps-payment_error,
}

-- How many calls for a payment stand in the log.
abbrev pub payments : Log → ℕ
payments [] = 0
payments (payment_rpc r ∷ l) = suc (payments l)
payments (_ ∷ l) = payments l

module _ (e : Env) (n : ℕ) where
  abbrev Before : World → Type 0
  Before w = payments w.log ≡ n

  abbrev After : World → Type 0
  After w = payments w.log ≤ suc n

  -- What makes no payment.
  unpaid : {A : Type 0} (m : Action A) → Keeps e Before m → Runs e Before m (λ a w. Before w) After
  unpaid m keeps = Runs-weaken m (λ w before. omega arith) (Runs-keeps m keeps)

  paid : {A : Type 0} (m : Action A) → Keeps e After m → Runs e After m (λ a w. After w) After
  paid m keeps = Runs-keeps m keeps

  Runs-call :
      (m : GrpcPaymentRequest)
      → Runs e Before
          (perform (λ e' log. of_reply (e'.on_payment log m)) (payment_rpc m))
          (λ r w. After w)
          After
  unfolding perform
  Runs-call m = record { at = λ w before. by_reply (e.on_payment w.log m) w before }
    where
      by_reply :
          (r : Reply GrpcPaymentResponse) (w : World)
          → Before w
          → Post (λ a w'. After w') After (of_reply r) (record w { log = payment_rpc m ∷ w.log })
      by_reply (returned a) w before = omega arith
      by_reply (raised x) w before = omega arith

  -- However it ends.
  at_end :
      {A : Type 0} (m : Action A) (w : World)
      → Runs e Before m (λ a w'. After w') After
      → Before w
      → After (m e w).1
  at_end m w runs before = by_outcome (m e w).0 (runs.at w before)
    where
      by_outcome :
          {A : Type 0} (o : Outcome A) → Post (λ a w'. After w') After o (m e w).1 → After (m e w).1
      by_outcome (ok a) after = after
      by_outcome (err x) after = after
      by_outcome hanging after = after

  Runs-make_payment :
      (user plan : String) (amount : ℕ) (currency key : String)
      → Runs e Before (Payments.make_payment user plan amount currency key) (λ v w. After w) After
  unfolding Payments.make_payment
  Runs-make_payment user plan amount currency key =
      Runs-try_except _ _
        (Runs-bind {Q = λ id w. Before w} _ _ (unpaid _ (Keeps-gets _))
          λ id. Runs-bind {Q = λ r w. After w} _ _ (Runs-call _) (λ r. paid _ (Keeps-asks _)))
        (λ x. paid _ (Keeps-payment_failed e _ x))

-- Whatever the request and the session hold, and whatever payment-gateway answers, `create_payment`
-- makes at most one call for a payment: it never tries again.
pub pay_once :
    (e : Env) (request : Request) (st : State) (w : World)
    → payments (Payments.pay request st e w).1.log ≤ suc (payments w.log)
unfolding Payments.pay
pay_once e request st w =
    let n = payments w.log in
    at_end e n (Payments.pay request st) w
      (Runs-try_except _ _
        (Runs-bind {Q = λ body w'. Before e n w'} _ _ (unpaid e n _ (Keeps-lift _)) λ body.
          Runs-bind {Q = λ d w'. Before e n w'} _ _ (unpaid e n _ (Keeps-lift _)) λ d.
            Runs-bind {Q = λ o w'. Before e n w'} _ _ (unpaid e n _ (Keeps-asks _)) λ o.
              Runs-bind {Q = λ r w'. Before e n w'} _ _ (unpaid e n _ (Keeps-validated _ _ o)) λ r.
                Runs-bind {Q = λ t w'. Before e n w'} _ _
                  (unpaid e n _
                    (Keeps-payment_service e (λ l. payments l ≡ n) (λ name space l before. before)))
                  λ t.
                    Runs-bind {Q = λ id w'. Before e n w'} _ _ (unpaid e n _ (Keeps-lift _)) λ id.
                      Runs-bind {Q = λ u w'. Before e n w'} _ _ (unpaid e n _ (Keeps-lift _)) λ u.
                        Runs-bind {Q = λ v w'. After e n w'} _ _
                          (Runs-make_payment e n u r.plan_id 49900 "INR" r.idempotency_key)
                          (λ v. paid e n _ (Keeps-pure _)))
        (λ x. paid e n _ (Keeps-payment_error e (λ l. payments l ≤ suc n) x)))
      refl
