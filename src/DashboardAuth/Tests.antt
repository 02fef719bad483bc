-- ===== src/DashboardAuth/Tests.antt =====
-- Sessions at concrete texts, with serializers that write the moment before the payload.
use Prim.Native.Char.{Char, code}
use ollama_proxy.Prelude.{
  ℕ, zero, suc, ◌+◌, ◌≤◌, ◌≡◌, ◌↔◌, refl, sym, ◌∙◌, ap, subst, String, true, false, ◌&&◌, Option,
  none, some, [], ◌∷◌, arith, ◌==◌, leb, str_eq, eq_iff, if◌then◌else◌, Bool-cases, inl, inr,
}
use ollama_proxy.Exec.{returned}
use ollama_proxy.Python.{Json, str, dict, end, field, get}
use ollama_proxy.DashboardAuth.{
  Serializer, Serializers, JsonText, DashboardAuth, csrf_payload, verify_session, issue_csrf,
  verify_csrf, flash_payload,
}
use ollama_proxy.DashboardAuth.Guard.{
  Request, FormValue, require_dashboard_csrf, get_dashboard_session,
}
use ollama_proxy.DashboardAuth.Sessions.{
  IsSerializer, IsSigned, AnyText, IsCsrfPayload, Passes, verify_csrf-issue_csrf,
  require_dashboard_csrf_iff,
}

abbrev ticks : ℕ → String → String
ticks zero rest = String.◌∷◌ "." rest
ticks (suc n) rest = String.◌∷◌ "|" (ticks n rest)

abbrev tick : Option (ℕ × String) → Option (ℕ × String)
tick none = none
tick (some (n, rest)) = some (suc n, rest)

abbrev read_ticks : String → Option (ℕ × String)
read_ticks String.[] = none
read_ticks (String.◌∷◌ c s) =
    let more = tick (read_ticks s) in if code c == 46 then some (0, s) else more

read_ticks-ticks : (n : ℕ) (rest : String) → read_ticks (ticks n rest) ≡ some (n, rest)
read_ticks-ticks zero rest = refl
read_ticks-ticks (suc n) rest = rw (read_ticks-ticks n rest) refl

module _ {P : Type 0} (encode : P → String) (decode : String → Option P) where
  abbrev checked : String → ℕ → ℕ → ℕ → Option P → Option P
  checked value t age now none = none
  checked value t age now (some p) =
      if str_eq (ticks t (encode p)) value && (leb t now && leb now (t + age)) then some p else none

  abbrev opened : String → ℕ → ℕ → Option (ℕ × String) → Option P
  opened value age now none = none
  opened value age now (some (t, rest)) = checked value t age now (decode rest)

  abbrev plain_serializer : Serializer P
  plain_serializer = record {
    dumps = λ p t. ticks t (encode p);
    loads = λ value age now. opened value age now (read_ticks value);
  }

  ticks-not_empty : (t : ℕ) (rest : String) → str_eq (ticks t rest) "" ≡ false
  ticks-not_empty t rest = elim (Bool-cases (str_eq (ticks t rest) "")) [
    | inl e ↦
        let empty = (eq_iff (ticks t rest) "").0 e in
        let bad : some (t, rest) ≡ none = sym (read_ticks-ticks t rest) ∙ ap read_ticks empty in
        ground (arith, bad)
    | inr e ↦ e
  ]

  checked-opens :
      (p : P) (t age now : ℕ)
      → t ≤ now
      → checked (ticks t (encode p)) t age now (some p)
        ≡ (if leb now (t + age) then some p else none)
  checked-opens p t age now h =
      let value = ticks t (encode p) in rw ((eq_iff value value).1 refl) ground (arith, h)

  checked-genuine :
      (value : String) (t age now : ℕ) (o : Option P) (p : P)
      → checked value t age now o ≡ some p
      → (t : ℕ) × (value ≡ ticks t (encode p)) × (t ≤ now) × (now ≤ t + age)
  checked-genuine value t age now none p e = ground (arith, e)
  checked-genuine value t age now (some q) p e =
      let written = ticks t (encode q) in
      let same : q ≡ p = ground (arith, e) in
      let written_so : str_eq written value ≡ true = ground (arith, e) in
      (
        t,
        sym ((eq_iff written value).0 written_so) ∙ ap (λ x. ticks t (encode x)) same,
        ground (arith, e),
        ground (arith, e),
      )

  opened-genuine :
      (value : String) (age now : ℕ) (o : Option (ℕ × String)) (p : P)
      → opened value age now o ≡ some p
      → (t : ℕ) × (value ≡ ticks t (encode p)) × (t ≤ now) × (now ≤ t + age)
  opened-genuine value age now none p e = ground (arith, e)
  opened-genuine value age now (some (t, rest)) p e =
      checked-genuine value t age now (decode rest) p e

  opens_again :
      (p : P) (t age now : ℕ)
      → decode (encode p) ≡ some p
      → t ≤ now
      → opened (ticks t (encode p)) age now (read_ticks (ticks t (encode p)))
        ≡ (if leb now (t + age) then some p else none)
  opens_again p t age now e h =
      rw (read_ticks-ticks t (encode p)) (rw e (checked-opens p t age now h))

  -- The library's laws hold of this serializer, for payloads that the decoder reads back.
  pub plain_serializer-IsSerializer :
      (Signs : P → Type 0)
      → ((p : P) → Signs p → decode (encode p) ≡ some p)
      → IsSerializer Signs plain_serializer
  plain_serializer-IsSerializer Signs reads = record {
    not_empty = λ p t. ticks-not_empty t (encode p);
    opens = λ p t age now signs h. opens_again p t age now (reads p signs) h;
    genuine = λ value age now p e. opened-genuine value age now (read_ticks value) p e;
  }

-- The two texts of a CSRF payload as one: each letter of the first has a mark before it.
abbrev marked : String → String → String
marked String.[] rest = String.◌∷◌ "." rest
marked (String.◌∷◌ c s) rest = String.◌∷◌ "|" (String.◌∷◌ c (marked s rest))

abbrev grown : Char → Option (String × String) → Option (String × String)
grown c none = none
grown c (some (s, rest)) = some (String.◌∷◌ c s, rest)

abbrev unmarked : String → Option (String × String)
unmarked String.[] = none
unmarked (String.◌∷◌ m String.[]) = if code m == 46 then some ("", "") else none
unmarked (String.◌∷◌ m (String.◌∷◌ c s)) =
    let more = grown c (unmarked s) in if code m == 46 then some ("", String.◌∷◌ c s) else more

unmarked-marked : (a b : String) → unmarked (marked a b) ≡ some (a, b)
unmarked-marked String.[] String.[] = refl
unmarked-marked String.[] (String.◌∷◌ c s) = refl
unmarked-marked (String.◌∷◌ c s) b = rw (unmarked-marked s b) refl

abbrev encode_csrf : Json → String
encode_csrf (dict (field a (str session_id) (field b (str token) end))) = marked session_id token
encode_csrf p = ""

abbrev csrf_of : Option (String × String) → Option Json
csrf_of none = none
csrf_of (some (session_id, token)) = some (csrf_payload session_id token)

abbrev decode_csrf : String → Option Json
decode_csrf text = csrf_of (unmarked text)

abbrev id_text : String → String
id_text text = text

abbrev some_text : String → Option String
some_text text = some text

abbrev pub signers : Serializers
signers = record {
  session = plain_serializer id_text some_text;
  csrf = plain_serializer encode_csrf decode_csrf;
  flash = plain_serializer id_text some_text;
}

abbrev pub auth : DashboardAuth
auth = record { secret = "s"; session_ttl_seconds = 3600; cookie_secure = true; signers = signers }

reads_csrf : (p : Json) → IsCsrfPayload p → decode_csrf (encode_csrf p) ≡ some p
reads_csrf p (session_id, token, e) =
    subst (λ x. decode_csrf (encode_csrf x) ≡ some x) (sym e)
      (ap csrf_of (unmarked-marked session_id token))

pub auth-IsSigned : IsSigned auth
auth-IsSigned = record {
  session = plain_serializer-IsSerializer id_text some_text AnyText (λ p h. refl);
  csrf = plain_serializer-IsSerializer encode_csrf decode_csrf IsCsrfPayload reads_csrf;
  flash = plain_serializer-IsSerializer id_text some_text AnyText (λ p h. refl);
}

abbrev pub token_value : String
token_value = signers.csrf.dumps (csrf_payload "sid" "t") 10

verify_csrf-issue_csrf_example :
    verify_csrf auth "other" (some token_value) 20 ≡ str_eq "sid" "other"
unfolding issue_csrf
verify_csrf-issue_csrf_example =
    verify_csrf-issue_csrf auth auth-IsSigned "sid" "other" "t" token_value 10 20 refl
      (ground arith) (ground arith)

abbrev flash_json_of : Option (String × String) → Option Json
flash_json_of none = none
flash_json_of (some (level, msg)) = some (flash_payload level msg)

-- JSON for flashes alone.
abbrev pub flash_json : JsonText
flash_json = record { dumps = encode_csrf; loads = λ text. flash_json_of (unmarked text) }

pub flash_json_reads :
    (level msg : String)
    → flash_json.loads (flash_json.dumps (flash_payload level msg)) ≡ some (flash_payload level msg)
flash_json_reads level msg = ap flash_json_of (unmarked-marked level msg)

abbrev flash_value : String
flash_value = signers.flash.dumps (flash_json.dumps (flash_payload "ok" "saved")) 10

abbrev pub request : Request
request = record {
  cookies = ("opdash_sid", signers.session.dumps "sid" 10) ∷ ("opdash_csrf", token_value) ∷ [];
  form = ("csrf_token", FormValue.text token_value) ∷ [];
  csrf_header = none;
}

require_dashboard_csrf_iff_example :
    (require_dashboard_csrf auth 20 request ≡ returned tt) ↔ Passes auth 20 request
require_dashboard_csrf_iff_example = require_dashboard_csrf_iff auth 20 request

-- The guard lets the sample post pass.
passes : require_dashboard_csrf auth 20 request ≡ returned tt
unfolding require_dashboard_csrf get_dashboard_session verify_session verify_csrf get
passes = refl
