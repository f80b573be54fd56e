-- ===== src/Shared/Username.antt =====
-- shared/src/util.cpp: normalizeUsername and isValidUsername. The pattern ^[a-z0-9_]{2,20}$ is
-- written out as the matcher that it describes: `$` matches at the end of the subject and before a
-- newline that ends it, as it does in QRegularExpression without options.
pub mod Valid
use Prim.Native.Char.{Char, code}
use Prim.Native.String.{[], ◌∷◌}
use qt_chat_app.Prelude.{ℕ, suc, Bool, true, false, leb, ◌&&◌, ◌||◌, ◌==◌, if◌then◌else◌}
use qt_chat_app.Qt.{Qt, QString}

-- [a-z0-9_]
unfoldable pub is_username_char : Char → Bool
is_username_char c =
    leb b'a' (code c) && leb (code c) b'z'
    || (leb b'0' (code c) && leb (code c) b'9' || code c == b'_')

abbrev pub newline : ℕ
newline = 10

-- {2,20}
abbrev pub in_range : ℕ → Bool
in_range n = leb 2 n && leb n 20

-- The match goes on at `s`, behind n characters of the class.
unfoldable pub match_username : ℕ → QString → Bool
unfolding is_username_char
match_username n [] = in_range n
match_username n (c ∷ []) =
    if is_username_char c then in_range (suc n) else code c == newline && in_range n
match_username n (c ∷ s) = if is_username_char c then match_username (suc n) s else false

-- isValidUsername
unfoldable pub is_valid_username : QString → Bool
unfolding match_username
is_valid_username s = match_username 0 s

-- if (username.startsWith('@')) username.remove(0, 1);
unfoldable pub remove_at_sign : QString → QString
remove_at_sign [] = []
remove_at_sign (c ∷ s) = if code c == b'@' then s else c ∷ s

-- normalizeUsername
unfoldable pub normalize_username : Qt → QString → QString
unfolding remove_at_sign
normalize_username qt username = remove_at_sign (qt.to_lower (qt.trimmed username))
