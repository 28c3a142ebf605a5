-- ===== src/Auth/Gate/Check.antt =====
-- src/arvel/auth/gate.py: `Gate`, from its hooks to its verbs, and `GateResponse`.
use arvel.Common.{ℕ, String, Bool, true, false, Option, none, some, List, []}
use arvel.Common.Assoc.{Dict}
use arvel.Auth.Gate.Annotation.{Signature}

pub record GateResponse : Type 0 where
  pub allowed : Bool
  pub message : Option String
  pub code : Option ℕ

unfoldable pub allow : GateResponse
allow = record { allowed = true; message = none; code = none }

unfoldable pub deny : String → ℕ → GateResponse
deny message code = record { allowed = false; message = some message; code = some code }

unfoldable pub deny_as_not_found : String → ℕ → GateResponse
deny_as_not_found message code = record {
  allowed = false;
  message = some message;
  code = some code;
}

-- the defaults of `deny`
unfoldable pub default_deny : GateResponse
unfolding deny
default_deny = deny "This action is unauthorized." 403

-- What a callback returns: `None`, a response, or something else by its truth.
pub data Verdict : Type 0 where
  nothing : Verdict
  response : GateResponse → Verdict
  value : Bool → Verdict

-- `bool(result)`
unfoldable pub truth : Verdict → Bool
truth nothing = false
truth (response r) = r.allowed
truth (value b) = b

pub data Outcome (A : Type 0) : Type 0 where
  returned : A → Outcome A
  raised : String → Outcome A

-- what the code passes to a callback after the user
pub data Arg : Type 0 where
  ability_name : String → Arg
  instance_of : String → ℕ → Arg
  model_class : String → Arg

module _ (User : Type 0) where
  -- a callable: the `id` of its function, its signature and its result
  pub record Callable : Type 0 where
    pub identity : ℕ
    pub signature : Signature
    pub call : Option User → List Arg → Outcome Verdict

  -- the public attributes of a policy; one that is not callable is of no use to the gate
  pub data Attribute : Type 0 where
    method : Callable → Attribute
    field : Attribute

  -- a policy: a class, of which an instance is made, or an instance
  pub data Policy : Type 0 where
    policy_class policy_object : (String → Option Attribute) → Policy

  abbrev pub AfterHook : Type 0
  AfterHook = Option User → String → Verdict → List Arg → Outcome Verdict

  -- `Gate`; a model class goes by its name
  pub record Gate : Type 0 where
    pub abilities : Dict Callable
    pub policies : Dict Policy
    pub policy_registry : Dict Policy
    pub before_hooks : List Callable
    pub after_hooks : List AfterHook
    pub nullable_cache : List (ℕ × Bool)

  unfoldable pub empty : Gate
  empty = record {
    abilities = [];
    policies = [];
    policy_registry = [];
    before_hooks = [];
    after_hooks = [];
    nullable_cache = [];
  }
