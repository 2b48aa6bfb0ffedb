-- ===== src/Script/Types.antt =====
-- The ABI of a script, as serde reads it, and the registry of its selectors
-- (script-executor/src/runtime.rs).
use my_polkadot_orcale.Prelude.{Bytes, Option, List, StoreMap}

pub record Header : Type 0 where
  pub name : Option Bytes
  pub header : Bytes

pub record Param : Type 0 where
  pub name : Bytes
  pub param_type : Bytes

pub record Function : Type 0 where
  pub name : Bytes
  pub params : List Param
  pub result : Bytes
  pub selector : Bytes

pub record Class : Type 0 where
  pub class_selector : Bytes
  pub name : Bytes
  pub fields : List Param
  pub methods : List Function

pub record Variable : Type 0 where
  pub name : Bytes
  pub var_type : Bytes
  pub selector : Bytes

pub record Root : Type 0 where
  pub headers : Header
  pub functions : List Function
  pub classes : List Class
  pub variables : List Variable

pub record SelectorRegistry : Type 0 where
  pub origin : Bytes
  pub functions : StoreMap Bytes Function
  pub variables : StoreMap Bytes Variable
  pub classes_schema : StoreMap Bytes (List Param)
