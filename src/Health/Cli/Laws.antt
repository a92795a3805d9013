-- ===== src/Health/Cli/Laws.antt =====
-- When the health command succeeds.
use mathlib.Core.Bool.{false≢true}
use canterbury.Base.{true, ◌≡◌, ◌↔◌, refl, sym, ◌∙◌, inl, inr, Bool-cases}
use canterbury.Errors.{Result, ok, err, err≢ok, ok-inj}
use canterbury.Time.{Duration}
use canterbury.Context.{Context}
use canterbury.Health.{is_serving, HealthResult}
use canterbury.Health.Http.{HealthApplication}
use canterbury.Health.Cli.{is_positive, serving, serving_result, check_once}

serving_result_iff :
    (m : Result HealthResult)
    → (serving_result m ≡ true)
      ↔ ((result : HealthResult) × (m ≡ ok result) × (is_serving result.status ≡ true))
unfolding serving_result
serving_result_iff (ok result) = ((λ h. (result, refl, h)), λ (r, same, h). rw (ok-inj same) h)
serving_result_iff (err e) = ((λ h. cc), λ (result, same, h). absurd (err≢ok same))

-- One check of the health command succeeds exactly when its timeout is positive and the
-- application, asked under that timeout, answers that the service is serving.
pub check_once_iff :
    (with_timeout : Context → Duration → Context) (app : HealthApplication)
    → (ctx : Context) (timeout : Duration)
    → (check_once with_timeout app ctx timeout ≡ ok tt) ↔ (
        (is_positive timeout ≡ true)
        × ((result : HealthResult) × (app (with_timeout ctx timeout) ≡ ok result)
            × (is_serving result.status ≡ true)))
unfolding check_once serving
check_once_iff with_timeout app ctx timeout =
    let found = serving_result_iff (app (with_timeout ctx timeout)) in
    elim (Bool-cases (is_positive timeout)) [
      | inl positive ↦ elim (Bool-cases (serving_result (app (with_timeout ctx timeout)))) [
        | inl served ↦ rw (positive, served) ((λ h. (refl, found.0 served)), λ h. refl)
        | inr unserved ↦
            rw (positive, unserved)
              ((λ h. absurd (err≢ok h)), λ h. absurd (false≢true (sym unserved ∙ found.1 h.1)))
      ]
      | inr negative ↦ rw negative ((λ h. absurd (err≢ok h)), λ h. absurd (false≢true h.0))
    ]
