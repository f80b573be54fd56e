-- ===== src/Tests/SampleQt.antt =====
-- A concrete `Qt` at which its laws hold. Its texts have no space to trim and no capital letter.
use qt_chat_app.Prelude.{
  ℕ, ◌*◌, ◌/◌, ◌≡◌, refl, ap, ◌∙◌, [], false, some, List, String, append-nil, is_empty,
}
use qt_chat_app.Qt.{Qt, QtLaws}
use qt_chat_app.Qt.JsonValue.{Document}
use qt_chat_app.Database.Usernames.RoundTrip.{JsonTextLaws}
use qt_chat_app.Tests.Spelled.{spelled, unspelled, unspelled-spelled, spelled-filled}
use qt_chat_app.Tests.Digits.{
  digits, of_digits, length-digits, of_digits-digits, marks, count_marks, count_marks-marks,
  text_bytes, read_text, read_text-text_bytes,
}
use qt_chat_app.Tests.JsonCodec.{
  document_bytes, read_document, read_document-document_bytes, document_bytes-not_empty,
}

abbrev pub sample_qt : Qt
sample_qt = record {
  to_rfc4122 = digits 16;
  from_rfc4122 = of_digits;
  uuid_to_string = marks;
  uuid_of_string = count_marks;
  to_utf8 = text_bytes;
  from_utf8 = λ bytes. (read_text bytes).0;
  trimmed = λ s. s;
  to_lower = λ s. s;
  date_to_string = λ t. marks (t / 1000);
  date_of_string = λ s. count_marks s * 1000;
  to_json = λ d. text_bytes (spelled (document_bytes d));
  from_json = λ bytes. read_document (unspelled (read_text bytes).0);
}

text_round_trip : (s : String) → (read_text (text_bytes s)).0 ≡ s
text_round_trip s = ap (λ (r : String × List ℕ). r.0) (rw append-nil at (read_text-text_bytes s []))

text_bytes-not_empty : (s : String) → is_empty (text_bytes s) ≡ false
unfolding text_bytes
text_bytes-not_empty String.[] = refl
text_bytes-not_empty (String.◌∷◌ c s) = refl

json_text :
    (d : Document)
    → read_document (unspelled (read_text (text_bytes (spelled (document_bytes d)))).0) ≡ some d
json_text d =
    ap read_document (ap unspelled (text_round_trip _) ∙ unspelled-spelled (document_bytes d))
    ∙ read_document-document_bytes d

pub sample_laws : QtLaws sample_qt
sample_laws = record {
  length-to_rfc4122 = length-digits 16;
  rfc4122_round_trip = λ u h. of_digits-digits 16 u h;
  uuid_string_round_trip = λ u h. count_marks-marks u;
  utf8_round_trip = text_round_trip;
  date_round_trip = λ t h. ap (λ n. n * 1000) (count_marks-marks (t / 1000));
  json_round_trip = λ d h. json_text d;
  json_not_empty = λ d. text_bytes-not_empty (spelled (document_bytes d));
}

pub sample_text_laws : JsonTextLaws sample_qt
sample_text_laws = record {
  to_utf8-from_utf8 = λ d. ap text_bytes (text_round_trip _);
  text_not_empty = λ d.
      rw (text_round_trip (spelled (document_bytes d)))
        (spelled-filled (document_bytes d) (document_bytes-not_empty d));
}
