-- ===== src/Client/Hasher.antt =====
-- client/src/Hasher (.h, .cpp).
use qt_chat_app.Qt.{Qt, QString, QByteArray}

-- QCryptographicHash::hash with Sha256, and QString::fromLatin1 of QByteArray::toHex.
pub record Hashing : Type 0 where
  pub hash : QByteArray → QByteArray
  pub hex_text : QByteArray → QString

-- Hasher::sha256
unfoldable pub sha256 : Qt → Hashing → QString → QString
sha256 qt h text = h.hex_text (h.hash (qt.to_utf8 text))
