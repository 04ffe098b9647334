-- ===== src/Sdk/Types.antt =====
-- sdk/typescript/src/types.ts: the scope, the event that a caller captures and the event that is
-- sent. A number is the bit pattern of an IEEE double, and an object is a reference to the heap of
-- Sdk/Json.antt. The records that only the server fills in are not here.
use farfield.Base.{ℕ, Bool, Text, List, Option}

pub record Number : Type 0 where
  pub bits : ℕ

-- A JavaScript value. `opaque` is a function, a symbol or a bigint, with what `typeof` says of it.
pub data Value : Type 0 where
  undefined null : Value
  boolean : Bool → Value
  number : Number → Value
  str : Text → Value
  ref : ℕ → Value
  opaque : Text → Value

abbrev pub Tags : Type 0
Tags = List (Text × Text)

pub record Scope : Type 0 where
  pub conversation_id : Option Text
  pub trace_id : Option Text
  pub span_id : Option Text
  pub parent_id : Option Text
  pub agent : Option Text
  pub tags : Option Tags

pub data Moment : Type 0 where
  date : Option ℕ → Moment
  stamp : Text → Moment

pub record Event : Type 0 where
  pub scope : Scope
  pub open scope use *
  pub kind : Text
  pub content : Value
  pub id : Option Text
  pub occurred_at : Option Moment
  pub sequence : Option Number
  pub tool : Option Text
  pub status : Option Text

pub record WireEvent : Type 0 where
  pub id : Text
  pub conversation_id : Text
  pub kind : Text
  pub content : Value
  pub occurred_at : Text
  pub sequence : Option Number
  pub trace_id : Option Text
  pub span_id : Option Text
  pub parent_id : Option Text
  pub agent : Option Text
  pub tool : Option Text
  pub status : Option Text
  pub tags : Tags
