-- ===== src/Router/Tokens/Renewal.antt =====
-- backend/src/router/auth.rs: what a renewed token may do.
use picasu.Prelude.{
  ◌≡◌, inl, inr, refl, ap, ◌∙◌, true, Option, some, [], ◌∷◌, ◌++◌, arith, Bool-cases, ==_iff,
}
use picasu.Model.Text.{Text}
use picasu.Model.Text.Table.{Table}
use picasu.Model.Assets.{MetadataRecord}
use picasu.Auth.Users.{ok, Result-cases}
use picasu.Router.Sessions.{ClaimsSession, Backend}
use picasu.Router.Shares.{Request}
use picasu.Router.Tokens.{
  ClaimsSnapshot, new_snapshot, bearer_prefix, strip_text, extract_bearer_token, binds,
  typed_snapshot, guard_snapshot,
}
use picasu.Router.Tokens.Renew.{recheck, renew_timestamp_token}

strip_text-append : (prefix rest : Text) → strip_text (prefix ++ rest) prefix ≡ some rest
unfolding strip_text
strip_text-append [] rest = refl
strip_text-append (c ∷ prefix) rest = ground (arith, strip_text-append prefix rest)

renewed_parts :
    (b : Backend) (metadata : Table MetadataRecord) (decode_expired : Text → Option ClaimsSnapshot)
    (presenter : ClaimsSession) (token : Text) (old new : ClaimsSnapshot)
    → typed_snapshot (decode_expired token) ≡ some old
    → renew_timestamp_token b metadata decode_expired presenter token ≡ ok new
    → (binds presenter.role old.caller old.resolved_share_opt ≡ true)
      × (recheck b metadata old.resolved_share_opt ≡ ok tt)
      × (new ≡ new_snapshot b.now old.caller old.resolved_share_opt old.timestamp)
unfolding renew_timestamp_token
renewed_parts b metadata decode_expired presenter token old new decoded h =
    elim (Bool-cases (binds presenter.role old.caller old.resolved_share_opt)) [
      | inr wrong ↦ absurd (ground arith)
      | inl right ↦ elim (Result-cases (recheck b metadata old.resolved_share_opt)) [
        | inr (e, dead) ↦ absurd (ground arith)
        | inl (u, live) ↦ (right, live, ground arith)
      ]
    ]

accepted_new :
    (b : Backend) (decode_snapshot : Text → Option ClaimsSnapshot) (presenter : ClaimsSession)
    (fresh : Text) (old : ClaimsSnapshot) (request : Request) (segment : Option Text)
    → binds presenter.role old.caller old.resolved_share_opt ≡ true
    → decode_snapshot fresh
      ≡ some (new_snapshot b.now old.caller old.resolved_share_opt old.timestamp)
    → guard_snapshot
        (ok presenter)
        (record {
          request = request;
          authorization = some (bearer_prefix ++ fresh);
          segment = segment;
          timestamp = some old.timestamp;
        })
        decode_snapshot
      ≡ ok presenter
unfolding guard_snapshot extract_bearer_token new_snapshot
accepted_new b decode_snapshot presenter fresh old request segment right good =
    ground (
      arith,
      strip_text-append bearer_prefix fresh,
      good,
      right,
      ==_iff old.timestamp old.timestamp,
    )

-- A renewed snapshot token keeps the caller, the share and the time of the one that was handed in, and it
-- is good for the presenter that renewed it: a request with it and its time passes the snapshot guard. (The
-- token decodes to its claims.)
pub renewed_accepted :
    (b : Backend) (metadata : Table MetadataRecord)
    (decode_expired decode_snapshot : Text → Option ClaimsSnapshot) (presenter : ClaimsSession)
    (token fresh : Text) (old new : ClaimsSnapshot) (request : Request) (segment : Option Text)
    → typed_snapshot (decode_expired token) ≡ some old
    → renew_timestamp_token b metadata decode_expired presenter token ≡ ok new
    → decode_snapshot fresh ≡ some new
    → (new.caller ≡ old.caller)
      × (new.resolved_share_opt ≡ old.resolved_share_opt)
      × (new.timestamp ≡ old.timestamp)
      × (guard_snapshot
            (ok presenter)
            (record {
              request = request;
              authorization = some (bearer_prefix ++ fresh);
              segment = segment;
              timestamp = some old.timestamp;
            })
            decode_snapshot
          ≡ ok presenter)
unfolding new_snapshot
renewed_accepted b metadata decode_expired decode_snapshot presenter token fresh old new request
      segment decoded h good =
    let (right, live, e) =
      renewed_parts b metadata decode_expired presenter token old new decoded h in
    (
      ap (λ (c : ClaimsSnapshot). c.caller) e,
      ap (λ (c : ClaimsSnapshot). c.resolved_share_opt) e,
      ap (λ (c : ClaimsSnapshot). c.timestamp) e,
      accepted_new b decode_snapshot presenter fresh old request segment right (good ∙ ap some e),
    )
