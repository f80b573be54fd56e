-- ===== src/Database/Contents.antt =====
-- server/src/Database.cpp: the contents of messages.
use qt_chat_app.Prelude.{Bool, false, List, [], ◌∷◌, Option, none}
use qt_chat_app.Qt.{Qt, QUuid, QString}
use qt_chat_app.Model.{Content}
use qt_chat_app.Database.Sql.{
  Value, string, double, Row, first, all, insert_into, delete_from, Engine, value_of, first_row,
  all_rows, when_open, run_insert, run_delete,
}

abbrev pub content_columns : List QString
content_columns = "id" ∷ "content" ∷ "file" ∷ "file_size" ∷ []

-- INSERT INTO contents (…) VALUES (…)
abbrev pub content_row : Qt → Content → Row
content_row qt c =
    ("id", string (qt.uuid_to_string c.id))
    ∷ ("content", string c.content)
    ∷ ("file", string c.file)
    ∷ ("file_size", double c.file_size)
    ∷ []

module _ {D : Type 0} (qt : Qt) (engine : Engine D) where
  -- a model::Content of a row
  unfoldable pub content_of_row : List Value → Content
  unfolding value_of
  content_of_row row = record {
    id = qt.uuid_of_string (engine.to_string (value_of 0 row));
    content = engine.to_string (value_of 1 row);
    file = engine.to_string (value_of 2 row);
    file_size = engine.to_double (value_of 3 row);
  }

  -- Database::createContent
  unfoldable pub create_content : D → Content → Bool × D
  unfolding run_insert
  create_content d c =
      when_open engine d (false, d)
        (run_insert engine d (insert_into "contents" (content_row qt c)))

  -- Database::deleteContent
  unfoldable pub delete_content : D → QUuid → Bool × D
  unfolding run_delete
  delete_content d id =
      when_open engine d (false, d)
        (run_delete engine d (delete_from "contents" (("id", qt.uuid_to_string id) ∷ [])))

  -- Database::getContentById
  unfoldable pub get_content_by_id : D → QUuid → Option Content
  unfolding first_row
  get_content_by_id d id = when_open engine d none (
      first_row content_of_row
        (engine.query d (first content_columns "contents" (("id", qt.uuid_to_string id) ∷ []))))

  -- Database::getAllContents
  unfoldable pub get_all_contents : D → List Content
  unfolding all_rows
  get_all_contents d =
      when_open engine d []
        (all_rows content_of_row (engine.query d (all content_columns "contents" [])))
