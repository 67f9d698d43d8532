-- ===== src/Core/World.antt =====
-- packages/core/src/di/container.ts: the state of a container and of what it has made. The container
-- that is asked and its parents are one state; the `singletons` of the active request's container
-- are the request cache. A call returns or throws; running out of fuel stands for a recursion that
-- does not end, which no `catch` of the source turns into a value.
use nexusts.Prelude.{ℕ, Option, List, String}
use nexusts.Prelude.JsMap.{JsMap}
use nexusts.Prelude.JsSet.{JsSet}
use nexusts.Core.Provider.{Value, ProviderRecord}

pub record Container : Type 0 where
  pub providers : JsMap ProviderRecord
  pub singletons : JsMap Value
  pub resolving : JsSet

-- What `new` was called on, and the fields written since.
pub record Object : Type 0 where
  pub class_token : String
  pub params : List Value
  pub fields : JsMap Value

-- `request_cache` is `none` outside a request.
pub record World : Type 0 where
  pub this : Container
  pub parents : List Container
  pub request_cache : Option (JsMap Value)
  pub objects : List Object

pub data Error : Type 0 where
  circular : String → JsSet → Error
  no_provider : String → Error
  no_parameter_type : ℕ → String → Error
  unknown_provider : String → Error
  duplicate : String → Error
  user_error : String → Error

pub data Outcome (A : Type 0) : Type 0 where
  returned : A → World → Outcome A
  thrown : Error → World → Outcome A
  out_of_fuel : Outcome A

abbrev pub M : Type 0 → Type 0
M A = World → Outcome A

infixl 5 ◌>>=◌
abbrev pub ◌>>=◌ : {A B : Type 0} → M A → (A → M B) → M B
◌>>=◌ m f w = elim (m w) [
  | returned a w' ↦ f a w'
  | thrown e w' ↦ thrown e w'
  | out_of_fuel ↦ out_of_fuel
]

abbrev pub pure : {A : Type 0} → A → M A
pure a w = returned a w

abbrev pub throw : {A : Type 0} → Error → M A
throw e w = thrown e w

abbrev pub Resolver : Type 0
Resolver = String → M Value
