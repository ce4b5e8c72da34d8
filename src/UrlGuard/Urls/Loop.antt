-- ===== src/UrlGuard/Urls/Loop.antt =====
-- The loop over the resolved addresses and what is admitted by it.
use tyo_mq.Prelude.{
  ℕ, ◌≡◌, ◌≢◌, refl, List, [], ◌∷◌, arith, Bool, true, false, nat_eq, codes_eq, not, AllTrue,
}
use tyo_mq.UrlGuard.{Class, loopback, blocked, ok}
use tyo_mq.UrlGuard.Urls.{
  Address, Network, accepted, Reason, Scan, stopped, saw_public, class_of, scan, conclude, judge,
}

-- An address that a request may reach: no private one, a loopback one only in the development mode,
-- and a public one not over plain HTTP.
unfoldable pub admits : (allow_local is_http : Bool) → Class → Bool
admits allow_local is_http blocked = false
admits allow_local is_http loopback = allow_local
admits allow_local is_http ok = not is_http

conclude_only :
    (is_http : Bool) (host host' : List ℕ) (s : Scan)
    → conclude is_http host s ≡ accepted host'
    → (host ≡ host') × ((seen : Bool) × ((s ≡ saw_public seen) × (is_http ≡ true → seen ≡ false)))
unfolding conclude
conclude_only is_http host host' (stopped reason) h = ground arith
conclude_only is_http host host' (saw_public seen) h = (ground arith, (seen, (refl, ground arith)))

conclude_https :
    (host : List ℕ) (s : Scan)
    → ((reason : Reason) → s ≢ stopped reason)
    → conclude false host s ≡ accepted host
unfolding conclude
conclude_https host (stopped reason) h = absurd (h reason refl)
conclude_https host (saw_public seen) h = refl

module _ (net : Network) (allow_local : Bool) where
  -- All addresses are admitted.
  abbrev pub AllAdmitted : Bool → List Address → Type 0
  AllAdmitted is_http addrs = AllTrue (λ a. admits allow_local is_http (class_of net a)) addrs

  scan-admits :
      (addrs : List Address) (seen result : Bool)
      → scan net allow_local addrs seen ≡ saw_public result
      → AllAdmitted false addrs × (result ≡ false → (seen ≡ false) × AllAdmitted true addrs)
  unfolding scan admits
  scan-admits [] seen result h = ground arith
  scan-admits (a ∷ addrs) seen result h =
      ground (arith, scan-admits addrs seen result, scan-admits addrs true result)

  scan_local :
      (addrs : List Address)
      → AllAdmitted true addrs
      → scan net allow_local addrs false ≡ saw_public false
  unfolding scan admits
  scan_local [] all = refl
  scan_local (a ∷ addrs) all = ground (arith, scan_local addrs)

  scan-ne_stopped :
      (addrs : List Address) (seen : Bool) (reason : Reason)
      → AllAdmitted false addrs
      → scan net allow_local addrs seen ≢ stopped reason
  unfolding scan admits
  scan-ne_stopped [] seen reason all = ground arith
  scan-ne_stopped (a ∷ addrs) seen reason all =
      ground (arith, scan-ne_stopped addrs seen reason, scan-ne_stopped addrs true reason)

  admitted_local : (addrs : List Address) → AllAdmitted true addrs → AllAdmitted false addrs
  unfolding admits
  admitted_local [] all = tt
  admitted_local (a ∷ addrs) all = ground (arith, admitted_local addrs)

  pub judge_only :
      (is_http : Bool) (host host' : List ℕ) (addrs : List Address)
      → judge net allow_local is_http host addrs ≡ accepted host'
      → (host ≡ host') × (addrs ≢ []) × AllAdmitted is_http addrs
  unfolding judge
  judge_only is_http host host' [] h = ground arith
  judge_only true host host' (a ∷ addrs) h =
      let (same, (seen, (e, local))) =
        conclude_only true host host' (scan net allow_local (a ∷ addrs) false) h in
      (same, ground arith, ((scan-admits (a ∷ addrs) false seen e).1 (local refl)).1)
  judge_only false host host' (a ∷ addrs) h =
      let (same, (seen, (e, local))) =
        conclude_only false host host' (scan net allow_local (a ∷ addrs) false) h in
      (same, ground arith, (scan-admits (a ∷ addrs) false seen e).0)

  pub judge_if :
      (is_http : Bool) (host : List ℕ) (addrs : List Address)
      → addrs ≢ []
      → AllAdmitted is_http addrs
      → judge net allow_local is_http host addrs ≡ accepted host
  unfolding judge conclude
  judge_if is_http host [] ne all = absurd (ne refl)
  judge_if true host (a ∷ addrs) ne all = rw (scan_local (a ∷ addrs) all) refl
  judge_if false host (a ∷ addrs) ne all =
      conclude_https host _ λ reason. scan-ne_stopped (a ∷ addrs) false reason all
