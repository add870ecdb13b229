-- ===== src/Node/Http.antt =====
-- What the handlers of cmd/ftgd/rpc_server.go, rpc_exchange.go and rpc_settlement.go share: the parts
-- of a request that they read, `readJSON`, and the three kinds of answer. Of net/http and
-- encoding/json a handler sees the outcome alone: the method, the query, whether the body could be
-- read, and what its JSON holds. Headers and the JSON text of an answer are left out.
use Prim.Native.String.{◌++◌ as ◌<>◌}
use ftg_chain.Base.{
  ℕ, ◌≡◌, inl, inr, Bool, true, false, Option, none, some, String, str_eq, if◌then◌else◌,
  Bool-cases,
}
use ftg_chain.Base.Dict.{Dict, lookup}
use ftg_chain.Base.Atoi.{atoi}
use ftg_chain.Base.Result.{Result, ok, err, Result-cases}

-- The body of a request for a value of `A`: the error of `io.ReadAll`, if any, and the outcome of
-- `json.Unmarshal` on what was read.
pub record Body (A : Type 0) : Type 0 where
  pub read_error : Option String
  pub parsed : Result String A

-- readJSON
unfoldable pub read_json : {A : Type 0} → Body A → Result String A
read_json body = elim body.read_error [
  | some e ↦ err ("failed to read request body: " <> e)
  | none ↦ elim body.parsed [ err e ↦ err ("invalid JSON: " <> e) | ok a ↦ ok a ]
]

-- `r.URL.Query().Get(key)`: the empty text if the key is missing.
unfoldable pub query_get : String → Dict String → String
query_get key query = elim (lookup key query) [ none ↦ "" | some v ↦ v ]

-- An answer: 405 from `http.Error`, 400 from `errorResponse` with a text of the handler or an error
-- of the keeper, and 200 from `successResponse`.
pub data Response (E A : Type 0) : Type 0 where
  method_not_allowed : Response E A
  bad_request : String → Response E A
  failed : E → Response E A
  success : A → Response E A

-- The end of a handler that answers what the keeper returns.
abbrev pub respond : {S E A : Type 0} → S × Result E A → S × Response E A
respond (s, err e) = (s, failed e)
respond (s, ok a) = (s, success a)

abbrev pub is_success : {E A : Type 0} → Response E A → Bool
is_success (success _) = true
is_success _ = false

-- The state that an answer leaves, and whether it is a success.
abbrev pub shown : {S E A : Type 0} → S × Response E A → S × Bool
shown a = (a.0, is_success a.1)

abbrev pub is_ok : {E A : Type 0} → Result E A → Bool
is_ok (ok _) = true
is_ok (err _) = false

module _ {S E A R : Type 0} where
  -- The start of every handler of a POST: other methods and bodies that cannot be read are answered
  -- before anything else is done.
  unfoldable pub post : String → Body R → (R → S → S × Response E A) → S → S × Response E A
  post method body handler s =
      if str_eq method "POST"
      then elim (read_json body) [ err msg ↦ (s, bad_request msg) | ok req ↦ handler req s ]
      else (s, method_not_allowed)

  -- What holds of the two early answers, and of what the handler answers to every request, holds of
  -- what the POST answers.
  pub post_answer :
      (P : S × Response E A → Type 0) (method : String) (body : Body R)
      (handler : R → S → S × Response E A) (s : S)
      → P (s, method_not_allowed)
      → ((msg : String) → P (s, bad_request msg))
      → ((req : R) → P (handler req s))
      → P (post method body handler s)
  unfolding post
  post_answer P method body handler s not_post unread served =
      elim (Bool-cases (str_eq method "POST")) [
        | inl is_post ↦ elim (Result-cases (read_json body)) [
          | inl e ↦ rw (is_post, e.1) (unread e.0)
          | inr r ↦ rw (is_post, r.1) (served r.0)
        ]
        | inr other ↦ rw other not_post
      ]

-- The body as handleMint and handleBurn read it: without the text of a read error.
unfoldable pub read_body : {A : Type 0} → Body A → Result String A
read_body body = elim body.read_error [
  | some _ ↦ err "failed to read request body"
  | none ↦ elim body.parsed [ err e ↦ err ("invalid JSON: " <> e) | ok a ↦ ok a ]
]

-- `post` with that reading.
module _ {S E A R : Type 0} where
  unfoldable pub post_body : String → Body R → (R → S → S × Response E A) → S → S × Response E A
  unfolding read_body
  post_body method body handler s =
      if str_eq method "POST"
      then elim (read_body body) [ err msg ↦ (s, bad_request msg) | ok req ↦ handler req s ]
      else (s, method_not_allowed)

  pub post_body_answer :
      (P : S × Response E A → Type 0) (method : String) (body : Body R)
      (handler : R → S → S × Response E A) (s : S)
      → P (s, method_not_allowed)
      → ((msg : String) → P (s, bad_request msg))
      → ((req : R) → P (handler req s))
      → P (post_body method body handler s)
  unfolding post_body
  post_body_answer P method body handler s not_post unread served =
      elim (Bool-cases (str_eq method "POST")) [
        | inl is_post ↦ elim (Result-cases (read_body body)) [
          | inl e ↦ rw (is_post, e.1) (unread e.0)
          | inr r ↦ rw (is_post, r.1) (served r.0)
        ]
        | inr other ↦ rw other not_post
      ]

-- The answer to a query that may fail.
abbrev pub answered : {E A : Type 0} → Result E A → Response E A
answered (err e) = failed e
answered (ok a) = success a

-- n := fallback; if text != "" { if parsed, err := strconv.Atoi(text); err == nil { n = parsed } }
unfoldable pub number_or : ℕ → String → ℕ
number_or fallback text =
    if str_eq text "" then fallback else elim (atoi text) [ none ↦ fallback | some n ↦ n ]

-- `post` for a handler whose call may dereference nil: `none` is the panic.
module _ {S E A R : Type 0} where
  unfoldable pub post_or_panic :
      String → Body R → (R → S → Option (S × Response E A)) → S → Option (S × Response E A)
  post_or_panic method body handler s =
      if str_eq method "POST"
      then elim (read_json body) [ err msg ↦ some (s, bad_request msg) | ok req ↦ handler req s ]
      else some (s, method_not_allowed)

  pub post_or_panic_answer :
      (P : Option (S × Response E A) → Type 0) (method : String) (body : Body R)
      (handler : R → S → Option (S × Response E A)) (s : S)
      → P (some (s, method_not_allowed))
      → ((msg : String) → P (some (s, bad_request msg)))
      → ((req : R) → read_json body ≡ ok req → P (handler req s))
      → P (post_or_panic method body handler s)
  unfolding post_or_panic
  post_or_panic_answer P method body handler s not_post unread served =
      elim (Bool-cases (str_eq method "POST")) [
        | inl is_post ↦ elim (Result-cases (read_json body)) [
          | inl e ↦ rw (is_post, e.1) (unread e.0)
          | inr r ↦ rw (is_post, r.1) (served r.0 r.1)
        ]
        | inr other ↦ rw other not_post
      ]
