-- ===== src/Messaging/Captured.antt =====
-- waitbus/_messaging.py: which frame of the wire a waiting request returns.
use waitbus.Prelude.{String, ◌≡◌, Bool, true, List, [], ◌∷◌, ◌++◌}
use waitbus.Json.{get, Json, Fields}
use waitbus.Messaging.{is_reply}
use waitbus.Coalesce.Sorted.{only}

abbrev pub answers : String → String → Fields → Bool
answers correlation_id sender frame = is_reply correlation_id sender frame (get "fields" frame)

module _ (correlation_id sender : String) where
  -- The first frame that is a reply
  pub record IsFirst (frames : List Fields) (f : Fields) : Type 0 where
    pub pre : List Fields
    pub post : List Fields
    pub split : frames ≡ pre ++ f ∷ post
    pub none_before : only (answers correlation_id sender) pre ≡ []
    pub is_answer : answers correlation_id sender f ≡ true
