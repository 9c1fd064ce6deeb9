-- ===== src/Auth/Invites/Claim.antt =====
-- The deadline of an invite, and the transaction that claims it.
use picasu.Prelude.{
  ℕ, ◌+◌, ◌*◌, ◌^◌, ◌≤◌, ◌<◌, ◌≡◌, refl, sym, ◌∙◌, ◌↔◌, false, Option, none, some, [], ◌∷◌,
  if◌then◌else◌, leb, map_or, u64_max, Option-cases, inl, inr, arith,
}
use picasu.Model.Text.{Text}
use picasu.Model.Text.Table.{find, insert, HasKeys, text_eq_iff}
use picasu.Auth.Users.{conflict, permission_denied, ok, err, Users}
use picasu.Auth.Invites.{
  InviteRecord, Invites, scan, claim, bound_to_other, is_set, resolve_expiry, max_expiry_hours,
}

-- With hours in the 64 bits of an `i64`, and a clock that leaves room for a year, an invite never
-- expires exactly for 0 hours, its deadline is that many hours ahead exactly from 1 hour to a year,
-- and every other number is refused.
pub resolve_expiry_lem :
    (now hours : ℕ)
    → now + max_expiry_hours * 3600 ≤ u64_max
    → hours < 2 ^ 64
    → ((resolve_expiry now hours ≡ ok none) ↔ (hours ≡ 0))
      × ((deadline : ℕ)
          → (resolve_expiry now hours ≡ ok (some deadline))
            ↔ ((1 ≤ hours) × (hours ≤ max_expiry_hours) × (deadline ≡ now + hours * 3600)))
unfolding resolve_expiry
resolve_expiry_lem now hours room word =
    ((λ h. ground arith, λ h. ground arith), λ deadline. (λ h. ground arith, λ h. ground arith))

-- The invite admits this user at this time.
abbrev pub Admits : ℕ → Text → InviteRecord → Type 0
Admits now id r =
    (bound_to_other id r.username ≡ false)
    × (r.used_by ≡ none)
    × ((deadline : ℕ) → r.expires_at ≡ some deadline → now < deadline)

scan-absent :
    (c : Text) (rows : Invites) (found : Option InviteRecord)
    → find c rows ≡ none
    → scan c rows found ≡ found
unfolding scan find
scan-absent c [] found h = refl
scan-absent c ((k, r) ∷ rows) found h =
    ground (arith, text_eq_iff c k, text_eq_iff k c, scan-absent c rows found)

pub scan-find : (c : Text) (rows : Invites) → HasKeys rows → scan c rows none ≡ find c rows
unfolding scan find
scan-find c [] u = refl
scan-find c ((k, r) ∷ rows) u =
    ground
      (arith, text_eq_iff c k, text_eq_iff k c, scan-absent c rows (some r), scan-find c rows u.1)

pub is_set-none : {A : Type 0} (o : Option A) → (is_set o ≡ false) ↔ (o ≡ none)
is_set-none none = (λ h. refl, λ h. refl)
is_set-none (some x) = (λ h. absurd (ground arith), λ h. absurd (ground arith))

in_time :
    (now : ℕ) (o : Option ℕ)
    → (map_or false (λ deadline. leb deadline now) o ≡ false)
      ↔ ((deadline : ℕ) → o ≡ some deadline → now < deadline)
in_time now none = (λ h deadline e. absurd (ground arith), λ h. refl)
in_time now (some d) = (λ h deadline e. ground arith, λ h. ground (arith, h d refl))

-- What the tests of the transaction come to on the row that the scan found.
claim-on :
    (now : ℕ) (id candidate : Text) (users : Users) (invites : Invites) (r : InviteRecord)
    → scan candidate invites none ≡ some r
    → claim now id candidate users invites ≡ (
        if bound_to_other id r.username
        then err permission_denied
        else if is_set r.used_by
        then err conflict
        else if map_or false (λ deadline. leb deadline now) r.expires_at
        then err permission_denied
        else if is_set (find id users)
        then err conflict
        else ok (insert candidate (record r { used_by = some id }) invites))
unfolding claim
claim-on now id candidate users invites r h = rw (h, claim) refl

claim-Admits :
    (now : ℕ) (id candidate : Text) (users : Users) (invites : Invites) (r : InviteRecord)
    → scan candidate invites none ≡ some r
    → Admits now id r
    → find id users ≡ none
    → claim now id candidate users invites
      ≡ ok (insert candidate (record r { used_by = some id }) invites)
claim-Admits now id candidate users invites r h (free, unused, timely) absent =
    claim-on now id candidate users invites r h
    ∙ ground (
      arith,
      is_set-none r.used_by,
      (in_time now r.expires_at).1 timely,
      is_set-none (find id users),
    )

pub claim-ok :
    (now : ℕ) (id candidate : Text) (users : Users) (invites invites' : Invites) (r : InviteRecord)
    → scan candidate invites none ≡ some r
    → claim now id candidate users invites ≡ ok invites'
    → Admits now id r
      × (find id users ≡ none)
      × (invites' ≡ insert candidate (record r { used_by = some id }) invites)
claim-ok now id candidate users invites invites' r h claimed =
    let e = sym (claim-on now id candidate users invites r h) ∙ claimed in
    let bound : bound_to_other id r.username ≡ false = ground arith in
    let used : is_set r.used_by ≡ false = ground arith in
    let timely : map_or false (λ deadline. leb deadline now) r.expires_at ≡ false = ground arith in
    let absent : is_set (find id users) ≡ false = ground arith in
    (
      (bound, (is_set-none r.used_by).0 used, (in_time now r.expires_at).0 timely),
      (is_set-none (find id users)).0 absent,
      ground arith,
    )

-- A claim succeeds exactly on a row that admits the user, who is not in the user store; it then marks
-- that row used by the user.
pub claim_iff :
    (now : ℕ) (id candidate : Text) (users : Users) (invites invites' : Invites)
    → HasKeys invites
    → (claim now id candidate users invites ≡ ok invites') ↔ (
        (r : InviteRecord) × (find candidate invites ≡ some r)
        × Admits now id r
        × (find id users ≡ none)
        × (invites' ≡ insert candidate (record r { used_by = some id }) invites))
unfolding claim
claim_iff now id candidate users invites invites' u = (
  λ claimed. elim (Option-cases (find candidate invites)) [
    | inl missing ↦ let unscanned = scan-find candidate invites u ∙ missing in absurd (ground arith)
    | inr (r, there) ↦
        let (admits, absent, e) =
          claim-ok now id candidate users invites invites' r (scan-find candidate invites u ∙ there)
            claimed in
        (r, there, admits, absent, e)
  ],
  λ h.
      let (r, there, admits, absent, e) = h in
      rw e (
        claim-Admits now id candidate users invites r (scan-find candidate invites u ∙ there) admits
          absent),
)
