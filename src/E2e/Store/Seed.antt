-- ===== src/E2e/Store/Seed.antt =====
-- The canonical fixture of the end-to-end tests (cmd/atrium-e2e/fixtures.go).
use atrium_core.Base.{ℕ, Bool, true, false, Option, none, some, [], ◌∷◌, Text, txt, ℤ, pos}
use atrium_core.Provider.{Share, FolderEntry}
use atrium_core.E2e.Tree.{Node, Nodes, node, nil, cons}
use atrium_core.E2e.Store.{Store}

abbrev pub recipient_email : Text
recipient_email = txt "recipient@example.test"

abbrev pub other_email : Text
other_email = txt "other@example.test"

-- A file of the fixture, created at `now`.
abbrev pub file_share : Text → Text → Text → ℕ → Option ℤ → Option Text → Text → Share
file_share id recipient name size limit expires now = record {
  id = id;
  recipient_email = recipient;
  display_name = [];
  file_name = name;
  size = some (pos size);
  is_folder = false;
  mode = pos 0;
  max_downloads = limit;
  download_count = pos 0;
  expires_at = expires;
  created_at = some now;
}

-- A folder of the fixture.
abbrev pub folder_share : Text → Text → ℕ → Text → Share
folder_share id name mode now = record {
  id = id;
  recipient_email = recipient_email;
  display_name = name;
  file_name = [];
  size = none;
  is_folder = true;
  mode = pos mode;
  max_downloads = none;
  download_count = pos 0;
  expires_at = none;
  created_at = some now;
}

abbrev pub tree_entry : Text → Text → Option ℤ → Bool → FolderEntry
tree_entry id name size is_folder = record {
  id = id;
  name = name;
  size = size;
  mime_type = [];
  is_folder = is_folder;
  is_own = false;
  uploaded_at = none;
}

-- &node{children: ...}
abbrev pub tree : Nodes → Option Node
tree children = some (node (tree_entry [] [] none false) [] children)

-- seed, at `now`; `soon` is 48 hours later.
unfoldable pub seed : Text → Text → Store
seed now soon =
    (
      txt "file-basic",
      record {
        recipient = recipient_email;
        share =
            file_share (txt "file-basic") recipient_email (txt "Quartalsbericht.pdf") 23 none
              (some soon) now;
        content = txt "Quartalsbericht Inhalt\n";
        root = none;
      },
    )
    ∷ (
      txt "file-limited",
      record {
        recipient = recipient_email;
        share =
            file_share (txt "file-limited") recipient_email (txt "Limitiert.pdf") 11 (some (pos 1))
              none now;
        content = txt "nur einmal\n";
        root = none;
      },
    )
    ∷ (
      txt "folder-readall",
      record {
        recipient = recipient_email;
        share = folder_share (txt "folder-readall") (txt "Projekt") 2 now;
        content = [];
        root = tree (
            cons
              (node (tree_entry (txt "plan") (txt "Plan.pdf") (some (pos 10)) false)
                (txt "Planinhalt") nil)
              (cons
                (node (tree_entry (txt "unterlagen") (txt "Unterlagen") none true) [] (
                  cons
                    (node (tree_entry (txt "detail") (txt "Detail.txt") (some (pos 12)) false)
                      (txt "Detailinhalt") nil)
                    nil))
                nil));
      },
    )
    ∷ (
      txt "folder-readonly",
      record {
        recipient = recipient_email;
        share = folder_share (txt "folder-readonly") (txt "NurLesen") 0 now;
        content = [];
        root = tree (
            cons
              (node (tree_entry (txt "liste") (txt "Liste.csv") (some (pos 5)) false) (txt "a,b,c")
                nil)
              nil);
      },
    )
    ∷ (
      txt "folder-readown",
      record {
        recipient = recipient_email;
        share = folder_share (txt "folder-readown") (txt "MeineUploads") 1 now;
        content = [];
        root = tree nil;
      },
    )
    ∷ (
      txt "folder-dropzone",
      record {
        recipient = recipient_email;
        share = folder_share (txt "folder-dropzone") (txt "Briefkasten") 3 now;
        content = [];
        root = tree nil;
      },
    )
    ∷ (
      txt "file-other",
      record {
        recipient = other_email;
        share = file_share (txt "file-other") other_email (txt "Fremd.pdf") 7 none none now;
        content = txt "geheim\n";
        root = none;
      },
    )
    ∷ []
