-- ===== src/Session/Connected.antt =====
-- swp.go, recv.go: how a session gets its connection, once.
use go_sliding_window.Base.{
  ℕ, suc, ◌+◌, ◌≡◌, ◌≢◌, refl, sym, ◌∙◌, ap, subst, ◌⊎◌, inl, inr, Bool, true, false, Bool-cases,
  Option, none, some, List, [], ◌∷◌, String, str_eq, eq_iff, get_elem?, if◌then◌else◌, arith,
}
use go_sliding_window.Base.Int.{ℤ, pos, leb_ℤ, eq_ℤ}
use go_sliding_window.Packet.{Duration}
use go_sliding_window.Session.{or_default}
use go_sliding_window.Session.Connect.{
  Offer, ConnectError, Answer, Attempt, Connected, on_offer, connect_loop, Connector,
  set_connect_defaults, keep_nonce, taken, not_taken, stopping, answered, no_answer, too_long,
  stopped, connect_if_needed,
}

-- An attempt, not one of the lost ones, was answered.
abbrev pub WasAnswered : ℤ → ℕ → List Attempt → String → Option ConnectError → Type 0
WasAnswered lost tries attempts nonce err =
    (i : ℕ) × (a : Attempt) × (get_elem? attempts i ≡ some a)
    × (a.offer ≡ taken)
    × (a.answer ≡ answered nonce err)
    × (leb_ℤ (pos (suc (tries + i))) lost ≡ false)

if_same : {A : Type 0} (b : Bool) (a : A) → (if b then a else a) ≡ a
if_same true a = refl
if_same false a = refl

-- How an attempt leads to a connection: by those that follow, or by its answer.
on_offer-cases :
    (lost : Bool) (again : Connected) (reply : Answer) (o : Offer) (nonce : String)
    → on_offer lost again reply o ≡ some (nonce, none)
    → (again ≡ some (nonce, none)) ⊎ ((o ≡ taken) × (reply ≡ answered nonce none) × (lost ≡ false))
on_offer-cases true again reply taken nonce h = inl h
on_offer-cases false again (answered n err) taken nonce h =
    let same : n ≡ nonce = cc in
    let good : err ≡ none = cc in inr (refl, rw (same, good) refl, refl)
on_offer-cases false again no_answer taken nonce h = inl h
on_offer-cases false again too_long taken nonce h = absurd (cc)
on_offer-cases false again stopped taken nonce h = absurd (cc)
on_offer-cases lost again reply not_taken nonce h = absurd (cc)
on_offer-cases lost again reply stopping nonce h = absurd (cc)

connect_loop-WasAnswered :
    (lost : ℤ) (tries : ℕ) (attempts : List Attempt) (nonce : String)
    → connect_loop lost tries attempts ≡ some (nonce, none)
    → WasAnswered lost tries attempts nonce none
unfolding connect_loop
connect_loop-WasAnswered lost tries [] nonce h = absurd (cc)
connect_loop-WasAnswered lost tries (a ∷ attempts) nonce h =
    elim (on_offer-cases (leb_ℤ (pos (suc tries)) lost) (connect_loop lost (suc tries) attempts)
      a.answer a.offer nonce h) [
        | inl later ↦
            let (i, b, found, got, reply, late) =
              connect_loop-WasAnswered lost (suc tries) attempts nonce later in
            let count : suc (suc tries + i) ≡ suc (tries + suc i) = omega arith in
            (suc i, b, found, got, reply, sym (ap (λ k. leb_ℤ (pos k) lost) count) ∙ late)
        | inr (got, reply, late) ↦
            let count : suc tries ≡ suc (tries + 0) = omega arith in
            (0, a, refl, got, reply, sym (ap (λ k. leb_ℤ (pos k) lost) count) ∙ late)
      ]

keep_nonce-some :
    (s s' : Connector) (c : Connected)
    → keep_nonce s c ≡ some (s', none)
    → (c ≡ some (s'.remote_sess_nonce, none))
      × (s' ≡ record s { remote_sess_nonce = s'.remote_sess_nonce })
keep_nonce-some s s' none h = absurd (cc)
keep_nonce-some s s' (some (nonce, some err)) h = absurd (cc)
keep_nonce-some s s' (some (nonce, none)) h =
    let same : record s { remote_sess_nonce = nonce } ≡ s' = cc in
    let named : nonce ≡ s'.remote_sess_nonce = ap (λ (c : Connector). c.remote_sess_nonce) same in
    (ap (λ n. some (n, none)) named, sym same ∙ ap (λ n. record s { remote_sess_nonce = n }) named)

or_default-or_default : (n d : ℤ) → or_default (or_default n d) d ≡ or_default n d
or_default-or_default n d = elim (Bool-cases (eq_ℤ n (pos 0))) [
  | inl t ↦ rw t (if_same (eq_ℤ d (pos 0)) d)
  | inr f ↦ rw (f, f) refl
]

-- The defaults are set.
abbrev HasDefaults : Connector → Type 0
HasDefaults s = set_connect_defaults s ≡ s

set_connect_defaults-HasDefaults :
    (s : Connector) (nonce : String)
    → HasDefaults (record (set_connect_defaults s) { remote_sess_nonce = nonce })
unfolding set_connect_defaults
set_connect_defaults-HasDefaults s nonce =
    rw
      (
        or_default-or_default s.connect_timeout (pos 60_000_000_000),
        or_default-or_default s.connect_attempts (pos 5),
      )
      refl

known_nonce :
    (s : Connector) (lost : ℤ) (happens : Duration → ℤ → List Attempt)
    → HasDefaults s
    → (s.remote_sess_nonce ≡ "") ⊎ (connect_if_needed s lost happens ≡ some (s, none))
unfolding connect_if_needed
known_nonce s lost happens set = elim (Bool-cases (str_eq s.remote_sess_nonce "")) [
  | inl t ↦ inl ((eq_iff s.remote_sess_nonce "").0 t)
  | inr f ↦ inr (rw (set, f) refl)
]

first_connect :
    (s : Connector) (lost : ℤ) (happens : Duration → ℤ → List Attempt)
    → str_eq s.remote_sess_nonce "" ≡ true
    → connect_if_needed s lost happens
      ≡ keep_nonce (set_connect_defaults s) (
          connect_loop lost 0 (
            happens
              (or_default s.connect_timeout (pos 60_000_000_000))
              (or_default s.connect_attempts (pos 5))))
unfolding connect_if_needed
first_connect s lost happens t =
    rw
      (
        t,
        or_default-or_default s.connect_timeout (pos 60_000_000_000),
        or_default-or_default s.connect_attempts (pos 5),
      )
      refl

connected_before :
    (s s' : Connector) (lost : ℤ) (happens : Duration → ℤ → List Attempt)
    → str_eq s.remote_sess_nonce "" ≡ false
    → connect_if_needed s lost happens ≡ some (s', none)
    → set_connect_defaults s ≡ s'
unfolding connect_if_needed
connected_before s s' lost happens f h =
    let start : connect_if_needed s lost happens ≡ some (set_connect_defaults s, none) =
      rw f refl in
    let whole = sym start ∙ h in cc

-- A session that has connected without an error had a nonce of the other end, or has it from an
-- attempt that was answered and is not one of the first `lost`. From then on, unless that nonce is
-- empty, connecting changes nothing and asks nobody.
pub connect_if_needed-Connected :
    (s s' : Connector) (lost lost' : ℤ) (happens happens' : Duration → ℤ → List Attempt)
    → connect_if_needed s lost happens ≡ some (s', none)
    → ((s'.remote_sess_nonce ≡ s.remote_sess_nonce) × (s.remote_sess_nonce ≢ "")
        ⊎ WasAnswered lost 0
            (happens
              (or_default s.connect_timeout (pos 60_000_000_000))
              (or_default s.connect_attempts (pos 5)))
            s'.remote_sess_nonce
            none)
      × ((s'.remote_sess_nonce ≡ "") ⊎ (connect_if_needed s' lost' happens' ≡ some (s', none)))
unfolding set_connect_defaults
connect_if_needed-Connected s s' lost lost' happens happens' h =
    elim (Bool-cases (str_eq s.remote_sess_nonce "")) [
      | inl t ↦
          let (won, shape) =
            keep_nonce-some (set_connect_defaults s) s' _
              (sym (first_connect s lost happens t) ∙ h) in
          (
            inr (connect_loop-WasAnswered lost 0 _ s'.remote_sess_nonce won),
            known_nonce s' lost' happens' (
                subst HasDefaults (sym shape)
                  (set_connect_defaults-HasDefaults s s'.remote_sess_nonce)),
          )
      | inr f ↦
          let same = connected_before s s' lost happens f h in
          let named = ap (λ (c : Connector). c.remote_sess_nonce) same in
          let empty : s.remote_sess_nonce ≢ "" =
            λ e. let t = (eq_iff s.remote_sess_nonce "").1 e in cc in
          (
            inl (sym named, empty),
            known_nonce s' lost' happens'
                (subst HasDefaults same (set_connect_defaults-HasDefaults s s.remote_sess_nonce)),
          )
    ]
