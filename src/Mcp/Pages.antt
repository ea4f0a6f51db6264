-- ===== src/Mcp/Pages.antt =====
-- The pages that `ListTools` of mcp/client.go collects.
use native.Mathlib.Nat.{suc-add}
use gori.Prelude.{
  str_eq, is_empty, Result, ok, ℕ, suc, ◌+◌, String, ◌≡◌, refl, ap, ◌∙◌, true, false, some, List,
  [], ◌++◌, append_assoc,
}
use gori.Mcp.{ToolInfo, ListToolsResult, Wire, decode_as, turn_page, list_pages}

-- From a cursor on, a server in a world answers with pages: the tools of all of them in order, and the
-- world after the last, which has no cursor. `Pages n` are n pages. Each other page has a cursor, which is not
-- the one that it was asked for.
pub data Pages {W J : Type 0} (wire : Wire J) (rpc : String → J → W → Result J × W)
    : ℕ → String → W → List ToolInfo → W → Type 0 where
  last_page :
      {cursor : String} {w v : W} {r : Result J} {page : ListToolsResult}
      → rpc "tools/list" (wire.write_cursor cursor) w ≡ (r, v)
      → decode_as wire.read_tools r ≡ ok page
      → is_empty page.next_cursor ≡ true
      → Pages wire rpc 1 cursor w page.tools v
  next_page :
      {n : ℕ} {cursor : String} {w v u : W} {r : Result J} {page : ListToolsResult}
      {ts : List ToolInfo}
      → rpc "tools/list" (wire.write_cursor cursor) w ≡ (r, v)
      → decode_as wire.read_tools r ≡ ok page
      → is_empty page.next_cursor ≡ false
      → str_eq page.next_cursor cursor ≡ false
      → Pages wire rpc n page.next_cursor v ts u
      → Pages wire rpc (suc n) cursor w (page.tools ++ ts) u

module _ {W J : Type 0} (wire : Wire J) (rpc : String → J → W → Result J × W) where
  list_pages_from :
      (k : ℕ) {n : ℕ} {cursor : String} (all : List ToolInfo) {w u : W} {ts : List ToolInfo}
      → Pages wire rpc n cursor w ts u
      → list_pages wire rpc (n + k) cursor all w ≡ some (ok (all ++ ts), u)
  unfolding list_pages turn_page
  list_pages_from k all (last_page {page = page} e d last) = rw (suc-add, e, d, last) refl
  list_pages_from k all (next_page {n} {u = u'} {page = page} {ts = ts} e d more differs rest) =
      rw (suc-add, e, d, more, differs)
        (list_pages_from k (all ++ page.tools) rest
          ∙ ap (λ xs. some (ok xs, u')) (append_assoc all page.tools ts))

  -- From a server that answers with so many pages, `ListTools` takes just these: it returns their tools,
  -- in order and without an error, and it leaves the world that the last page has left. It makes no
  -- request more, however many it may make.
  pub list_pages_all :
      (n k : ℕ) (w u : W) (ts : List ToolInfo)
      → Pages wire rpc n "" w ts u
      → list_pages wire rpc (n + k) "" [] w ≡ some (ok ts, u)
  list_pages_all n k w u ts pages = list_pages_from k [] pages
