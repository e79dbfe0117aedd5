-- ===== src/Definitions/Data.antt =====
-- The types of mocko-core/src/definitions/data. A stanza's data blocks hold JSON: `Value A` tells an
-- array from any other value, over the type `A` of JSON values.
use mocko.Base.{ℕ, Text, Bool, Option, List}
use mocko.Base.Dict.{Dict}

pub data Value (A : Type 0) : Type 0 where
  array : List A → Value A
  scalar : A → Value A

abbrev pub Record : Type 0 → Type 0
Record A = Dict Text (Value A)

-- `Record<string, DataEntry>`
abbrev pub DataBlocks : Type 0 → Type 0
DataBlocks A = Dict Text (Record A)

pub data Source : Type 0 where
  file deployed : Source

pub record MockResponse : Type 0 where
  pub code : ℕ
  pub delay : Option ℕ
  pub body : Text
  pub headers : Dict Text Text

pub record Mock : Type 0 where
  pub id : Option Text
  pub name : Option Text
  pub source : Option Source
  pub file_path : Option Text
  pub is_enabled : Bool
  pub method : Text
  pub path : Text
  pub parse : Bool
  pub format : Option Text
  pub host : Option Text
  pub labels : List Text
  pub response : MockResponse

pub record Host : Type 0 where
  pub id : Option Text
  pub slug : Text
  pub name : Option Text
  pub source : Text
  pub destination : Option Text
  pub file_path : Option Text

pub record Callback : Type 0 where
  pub id : Option Text
  pub slug : Text
  pub name : Option Text
  pub source : Option Source
  pub file_path : Option Text
  pub method : Text
  pub host : Option Text
  pub path : Option Text
  pub url : Option Text
  pub delay : ℕ
  pub headers : Dict Text Text
  pub body : Option Text

pub record MockoDefinition (A : Type 0) : Type 0 where
  pub mocks : List Mock
  pub hosts : List Host
  pub callbacks : List Callback
  pub data_blocks : Option (DataBlocks A)
