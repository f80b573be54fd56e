-- ===== src/Shared/Payload/Result.antt =====
-- shared/src/OperationResult (.h, .cpp): a type byte and a text.
use qt_chat_app.Prelude.{ℕ, zero, suc, ◌≡◌, ◌≤◌, refl, [], ◌∷◌, arith}
use qt_chat_app.Qt.{Qt, QtLaws, QString, QByteArray}

-- `unlisted n` is a value of the enum's underlying type that names no enumerator, for the byte n.
pub data OperationResultType : Type 0 where
  success error : OperationResultType
  unlisted : ℕ → OperationResultType

pub record OperationResult : Type 0 where
  pub type : OperationResultType
  pub text : QString

-- static_cast<OperationResultType>(char)
unfoldable pub result_type_of_byte : ℕ → OperationResultType
result_type_of_byte zero = success
result_type_of_byte (suc zero) = error
result_type_of_byte n = unlisted n

-- static_cast<char>(OperationResultType)
unfoldable pub byte_of_result_type : OperationResultType → ℕ
byte_of_result_type success = 0
byte_of_result_type error = 1
byte_of_result_type (unlisted n) = n

-- OperationResult::serialize
unfoldable pub serialize_result : Qt → OperationResult → QByteArray
unfolding byte_of_result_type
serialize_result qt r = byte_of_result_type r.type ∷ qt.to_utf8 r.text

-- OperationResult::deserialize
unfoldable pub deserialize_result : Qt → QByteArray → OperationResult
unfolding result_type_of_byte
deserialize_result qt [] = record { type = error; text = "" }
deserialize_result qt (b ∷ bytes) = record {
  type = result_type_of_byte b;
  text = qt.from_utf8 bytes;
}

abbrev pub IsResultType : OperationResultType → Type 0
IsResultType (unlisted n) = 2 ≤ n
IsResultType _ = Unit

result_type_round_trip :
    (t : OperationResultType) → IsResultType t → result_type_of_byte (byte_of_result_type t) ≡ t
unfolding result_type_of_byte byte_of_result_type
result_type_round_trip success h = refl
result_type_round_trip error h = refl
result_type_round_trip (unlisted zero) h = absurd (omega arith)
result_type_round_trip (unlisted (suc zero)) h = absurd (omega arith)
result_type_round_trip (unlisted (suc (suc n))) h = refl

module _ (qt : Qt) (laws : QtLaws qt) where
  -- An outcome of a type that its byte can carry is read back as it was written. Qt's functions
  -- satisfy their laws.
  pub deserialize_result-serialize_result :
      (r : OperationResult)
      → IsResultType r.type
      → deserialize_result qt (serialize_result qt r) ≡ r
  unfolding deserialize_result serialize_result
  deserialize_result-serialize_result r h =
      rw (result_type_round_trip r.type h, laws.utf8_round_trip r.text)
