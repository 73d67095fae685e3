-- ===== src/Relay/Access.antt =====
-- The token that the poll side sends against the one that the queue side asks for.
use pincerbell.Base.{
  ◌&&◌, ◌≡◌, ◌↔◌, ◌∙◌, refl, sym, ap, true, false, Option, none, some, String, ok, arith,
  Bool-cases, inl, inr, ℕ, List,
}
use Prim.Native.String.{slice, len, ◌++◌}
use text.Mathlib.TextLemmas.{nil-append, cons-append}
use text.Mathlib.TextPositions.{len-append, slice-append_right, starts_with-append}
use pincerbell.Text.{trim, visible_ascii}
use pincerbell.Config.{PollUpstream, QueueConfig, HttpOptions}
use pincerbell.Environment.{Environment}
use pincerbell.QueueSide
use pincerbell.QueueSide.{QueueState}
use pincerbell.QueueSide.Laws.{token_hash-new}
use pincerbell.Queue.Wire.{AckRequest}
use pincerbell.Poller.Upstreams.{Upstream, load, bearer, poll_request, ack_request}
use pincerbell.Poller.Loaded.{load-eq-ok}
use pincerbell.Gateway.{AppState}
use pincerbell.Gateway.QueueApi.{queue_auth}
use pincerbell.Gateway.Endpoints.{queue_auth-eq-ok}

bearer-token : (token : String) → slice (bearer token) 7 (len (bearer token)) ≡ token
bearer-token token =
    ap (slice (bearer token) 7) (len-append "Bearer " token) ∙ slice-append_right "Bearer " token

visible_ascii-append :
    (s t : String) → visible_ascii (s ++ t) ≡ (visible_ascii s && visible_ascii t)
unfolding visible_ascii
visible_ascii-append String.[] t = ap visible_ascii (nil-append t)
visible_ascii-append (String.◌∷◌ c s) t =
    ap visible_ascii (cons-append c s t) ∙ ground (arith, visible_ascii-append s t)

visible_ascii-bearer : (token : String) → visible_ascii (bearer token) ≡ visible_ascii token
unfolding visible_ascii
visible_ascii-bearer token = visible_ascii-append "Bearer " token

-- Where a header is let through as text, it is let through exactly if it is seen as text.
is_granted {ℓ} :
    {P : Type ℓ} (sha256 : String → List ℕ) (st : AppState P) (q : QueueState)
    (header : Option String) (sent token : String)
    → queue_auth sha256 st (some sent) ≡ ok q
    → (visible_ascii token ≡ true → header ≡ some sent)
    → (visible_ascii token ≡ false → header ≡ none)
    → (queue_auth sha256 st header ≡ ok q) ↔ (visible_ascii token ≡ true)
is_granted sha256 st q header sent token granted shown hidden =
    elim (Bool-cases (visible_ascii token)) [
      | inl seen ↦ (λ h. seen, λ h. rw (shown seen) granted)
      | inr unseen ↦ (
        λ h.
            let (_, (v, is, _, _)) = (queue_auth-eq-ok sha256 st header q).0 h in
            absurd (ground (arith, hidden unseen, is)),
        λ h. absurd (ground (arith, unseen, h)),
      )
    ]

-- Where the token files of the two sides hold the same text, but for white space around it, and the
-- queue side is in queue mode with the token it was built with, the polls and the acknowledgements
-- of the poll side are let through exactly if the token is made of visible ASCII characters, spaces
-- and tabs, as `HeaderValue::to_str` is documented to ask for; with any other token both sides
-- load, and each request is refused.
pub queue_auth-load {ℓ} :
    {P : Type ℓ} (env env' : Environment) (qcfg : QueueConfig) (cfg : PollUpstream)
    (defaults : HttpOptions) (built q : QueueState) (up : Upstream) (raw raw' : String)
    (st : AppState P) (a : AckRequest) (to_str : String → Option String)
    → ((s : String) → visible_ascii s ≡ true → to_str s ≡ some s)
    → ((s : String) → visible_ascii s ≡ false → to_str s ≡ none)
    → QueueSide.new env qcfg ≡ ok built
    → load env' cfg defaults ≡ ok up
    → env.read_to_string qcfg.auth_token_file ≡ ok raw
    → env'.read_to_string cfg.auth_token_file ≡ ok raw'
    → trim raw ≡ trim raw'
    → st.queue ≡ some q
    → q.token_hash ≡ built.token_hash
    → ((queue_auth env.sha256 st (to_str (poll_request up).authorization) ≡ ok q)
        ↔ (visible_ascii (trim raw) ≡ true))
      × ((queue_auth env.sha256 st (to_str (ack_request up a).authorization) ≡ ok q)
          ↔ (visible_ascii (trim raw) ≡ true))
unfolding poll_request ack_request
queue_auth-load env env' qcfg cfg defaults built q up raw raw' st a to_str shown hidden made loaded
      got got' same on hash =
    let (raw'', read, _, token, _, _) = load-eq-ok env' cfg defaults up loaded in
    let again : raw'' ≡ raw' = ground (arith, read, got') in
    let text : up.token ≡ trim raw = token ∙ ap trim again ∙ sym same in
    let visible : visible_ascii (bearer up.token) ≡ visible_ascii (trim raw) =
      visible_ascii-bearer up.token ∙ ap visible_ascii text in
    let granted : queue_auth env.sha256 st (some (bearer up.token)) ≡ ok q =
      (queue_auth-eq-ok env.sha256 st (some (bearer up.token)) q).1 (
        on,
        (
          bearer up.token,
          refl,
          starts_with-append "Bearer " up.token,
          ap env.sha256 (bearer-token up.token ∙ text)
              ∙ sym (token_hash-new env qcfg built raw made got)
              ∙ sym hash,
        ),
      ) in
    let both =
      is_granted env.sha256 st q (to_str (bearer up.token)) (bearer up.token) (trim raw) granted
        (λ v. shown (bearer up.token) (visible ∙ v))
        (λ v. hidden (bearer up.token) (visible ∙ v)) in
    (both, both)
