-- ===== src/Wire/Identity.antt =====
-- web/src/gen/vekst/v1/identity_pb.ts: who is signed in, and the organisations of that person.
use vekst.Prelude.{Text, List, Option}

pub record User : Type 0 where
  pub id : Text
  pub email : Text
  pub name : Text
  pub locale : Text

pub record Entity : Type 0 where
  pub id : Text
  pub name : Text

pub record Organisation : Type 0 where
  pub id : Text
  pub name : Text
  pub base_currency : Text
  pub role : Text
  pub entities : List Entity

pub record GetCurrentUserResponse : Type 0 where
  pub user : Option User
  pub organisations : List Organisation
