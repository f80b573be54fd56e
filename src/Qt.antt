-- ===== src/Qt.antt =====
-- Qt, as far as the program uses it: the values that it passes to Qt, and Qt's functions as a
-- parameter `Qt` whose documented behaviour is `QtLaws`.
--
-- A QUuid is the number that its 128 bits stand for. A QByteArray is the list of its bytes. A
-- QString is a text. A QJsonValue is a value of `Json`; a QJsonObject is a list of keys and
-- values in which the first entry of a key is the one that is read.
pub mod JsonValue
use qt_chat_app.Prelude.{
  ℕ, String, List, [], Bool, true, Option, some, length, is_empty, false, ◌≡◌, ◌<◌, ◌^◌, ◌*◌, ◌/◌,
  ◌==◌,
}
use JsonValue.{Json, Document, IsDocument}

abbrev pub QUuid : Type 0
QUuid = ℕ

abbrev pub QString : Type 0
QString = String

abbrev pub QByteArray : Type 0
QByteArray = List ℕ

-- QUuid(), the null UUID
abbrev pub null_uuid : QUuid
null_uuid = 0

-- QUuid::isNull
abbrev pub is_null : QUuid → Bool
is_null u = u == 0

-- The values that 128 bits can hold.
abbrev pub IsUuid : QUuid → Type 0
IsUuid u = u < 2 ^ 128

-- A QDateTime is the number of milliseconds since the beginning of 1970. Up to the year 10000, ISO
-- 8601's dates have four digits for the year.
abbrev pub IsDate : ℕ → Type 0
IsDate t = t < 253402300800000

-- Qt::ISODate has no milliseconds.
abbrev pub whole_seconds : ℕ → ℕ
whole_seconds t = t / 1000 * 1000

pub record Qt : Type 0 where
  -- QUuid::toRfc4122 and QUuid::fromRfc4122
  pub to_rfc4122 : QUuid → QByteArray
  pub from_rfc4122 : QByteArray → QUuid
  -- QUuid::toString(QUuid::WithoutBraces) and QUuid(const QString&)
  pub uuid_to_string : QUuid → QString
  pub uuid_of_string : QString → QUuid
  -- QString::toUtf8 and QString::fromUtf8
  pub to_utf8 : QString → QByteArray
  pub from_utf8 : QByteArray → QString
  -- QString::trimmed and QString::toLower
  pub trimmed : QString → QString
  pub to_lower : QString → QString
  -- QDateTime::toUTC().toString(Qt::ISODate) and QDateTime::fromString(…, Qt::ISODate)
  pub date_to_string : ℕ → QString
  pub date_of_string : QString → ℕ
  -- QJsonDocument::toJson(QJsonDocument::Compact) and QJsonDocument::fromJson
  pub to_json : Document → QByteArray
  pub from_json : QByteArray → Option Document

-- What Qt's documentation says of those functions: each pair is an encoding and its decoding.
pub record QtLaws (q : Qt) : Type 0 where
  pub length-to_rfc4122 : (u : QUuid) → length (q.to_rfc4122 u) ≡ 16
  pub rfc4122_round_trip : (u : QUuid) → IsUuid u → q.from_rfc4122 (q.to_rfc4122 u) ≡ u
  pub uuid_string_round_trip : (u : QUuid) → IsUuid u → q.uuid_of_string (q.uuid_to_string u) ≡ u
  pub utf8_round_trip : (s : QString) → q.from_utf8 (q.to_utf8 s) ≡ s
  pub date_round_trip : (t : ℕ) → IsDate t → q.date_of_string (q.date_to_string t) ≡ whole_seconds t
  pub json_round_trip : (d : Document) → IsDocument d → q.from_json (q.to_json d) ≡ some d
  pub json_not_empty : (d : Document) → is_empty (q.to_json d) ≡ false
