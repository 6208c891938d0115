-- ===== src/Gin/Plain.antt =====
-- A plain implementation of the calls on a context, at which the theorems are applied.
use idp_sdk.Common.{ℕ, String, Option, none, some, List, [], lookup, insert}
use idp_sdk.Common.Value.{Fields}
use idp_sdk.Gin.{Gin}

pub record Plain (Entry : Type 0) : Type 0 where
  pub request : List (String × String)
  pub response : List (String × String)
  pub keys : List (String × Entry)
  pub answer : Option (ℕ × Fields)
  pub aborted : Option ℕ

abbrev or_empty : Option String → String
or_empty none = ""
or_empty (some v) = v

abbrev pub plain : (Entry : Type 0) → Gin Entry
plain Entry = record {
  Context = Plain Entry;
  get_header = λ k c. or_empty (lookup k c.request);
  header = λ k v c. record c { response = insert k v c.response };
  set = λ k v c. record c { keys = insert k v c.keys };
  get = λ k c. lookup k c.keys;
  json = λ status body c. record c { answer = some (status, body) };
  abort_with_status_json =
      λ status body c. record c { answer = some (status, body); aborted = some status };
}

abbrev pub request : {Entry : Type 0} → List (String × String) → Plain Entry
request headers = record {
  request = headers;
  response = [];
  keys = [];
  answer = none;
  aborted = none;
}
