-- ===== src/Api/Auth.antt =====
-- AuthWrapper and CombineAuth of api/auth.py, and Endpoint._resolve_call_auth of api/endpoint.py.
use goga_tool_pybuggy.Prelude.{
  ◌≡◌, refl, Option, none, some, List, [], ◌∷◌, ◌++◌, Result, ok, err, ◌>>=◌, inl, inr,
  Result-cases,
}
use goga_tool_pybuggy.Matchcrest.Python.{Raised, type_error}

-- What an authenticator did: it changed the request in place and returned None, or returned one.
pub data Signed (Request : Type 0) : Type 0 where
  in_place answered : Request → Signed Request

-- The authenticators of requests and plain callables: a parameter.
pub record Signing : Type 1 where
  pub Request : Type 0
  pub Auth : Type 0
  pub Function : Type 0
  pub call_auth : Auth → Request → Result Raised (Signed Request)
  pub call_function : Function → Request → Result Raised (Signed Request)

module _ (signing : Signing) where
  open signing use {Request, Auth, Function}

  -- An `AuthBase`: one of requests, or an AuthWrapper over a callable.
  pub data Signer : Type 0 where
    base : Auth → Signer
    wrapper : Function → Signer

  unfoldable pub sign : Signer → Request → Result Raised (Signed Request)
  sign (base auth) request = signing.call_auth auth request
  sign (wrapper func) request = signing.call_function func request

  -- `if signed is not None: request = signed`
  abbrev pub signed_request : Signed Request → Request
  signed_request (in_place request) = request
  signed_request (answered request) = request

  -- CombineAuth called with a request
  unfoldable pub combine_call : List Signer → Request → Result Raised Request
  combine_call [] request = ok request
  combine_call (auth ∷ chain) request = do
    signed ← sign auth request
    combine_call chain (signed_request signed)

  -- What a call gives as `auth`: an AuthBase, an object with a method `auth`, a callable.
  pub record CallAuth : Type 0 where
    pub as_base : Option Auth
    pub auth_method : Option Function
    pub as_callable : Option Function

  unfoldable pub call_signer : CallAuth → Result Raised Signer
  call_signer call = elim call.as_base [
    | some auth ↦ ok (base auth)
    | none ↦ elim call.auth_method [
      | some func ↦ ok (wrapper func)
      | none ↦ elim call.as_callable [ some func ↦ ok (wrapper func) | none ↦ err type_error ]
    ]
  ]

  abbrev pub default_chain : Option Auth → List Signer
  default_chain none = []
  default_chain (some auth) = base auth ∷ []

  -- `_resolve_call_auth`: the client's authenticator first.
  unfoldable pub resolve_call_auth : Option Auth → CallAuth → Result Raised (List Signer)
  resolve_call_auth default call =
      call_signer call >>= λ auth. ok (default_chain default ++ auth ∷ [])

  -- A chain behind another one signs what this one gives.
  combine_call-append :
      (chain more : List Signer) (request : Request)
      → combine_call (chain ++ more) request
        ≡ (combine_call chain request >>= λ r. combine_call more r)
  unfolding combine_call
  combine_call-append [] more request = refl
  combine_call-append (auth ∷ chain) more request = elim (Result-cases (sign auth request)) [
    | inl (signed, e) ↦ rw e (combine_call-append chain more (signed_request signed))
    | inr (x, e) ↦ rw e refl
  ]
