-- ===== src/Lib.antt =====
-- Verification of parts of tmux, the terminal multiplexer.
--
-- The server keeps sessions, which share windows; a window is divided into panes by a tree of cells, and each
-- pane has a screen that stands on a grid of lines, part of which is its history. What programs in
-- the panes write is parsed byte by byte, multibyte characters are put together, and cells of the grid are set;
-- colours, attributes and keys have texts in the configuration and in lists. Text that is copied
-- goes to a stack of buffers. This library models the parts below; each is used by the others only
-- through the functions that are named here.
--
-- Prelude: what the modules share: tests on natural numbers, lists over them, 32-bit arithmetic
--   (add_uint, sub_uint, which wrap around), the bytes and C strings of texts, and bounded tables:
--   `all_below n p` runs the test p below n, and `all_below_sound` reads off each case.
--
-- Grid: grid.c, grid-utf8.c and grid-view.c. `struct grid` is the record Grid, whose array of lines
--   is a list; `linedata` and `utf8data` of a line are lists whose lengths are `cellsize` and
--   `utf8size`. Every function that changes the grid gives back the new grid. Grid has the lines and the history
--   (grid_create, grid_collect_history, grid_scroll_history, grid_scroll_history_region,
--   grid_expand_line, grid_clear_lines, grid_move_lines, the cells), Grid.Blocks what works on
--   blocks of cells (grid_clear, grid_move_cells, grid_compare, grid_duplicate_lines), Grid.Text
--   grid_string_cells, Grid.Utf8 grid-utf8.c, and Grid.View grid-view.c. An array index out of range reads a
--   default and writes nothing; the theorems are about grids on which none occurs. IsValid says
--   which: all lines in use are there, the history is within its limit, and the numbers of lines fit.
--   Proofs: Grid.Cells, Grid.Moves, Grid.History, Grid.Blocks.Clear, Grid.View.Scroll, Grid.View.Edit.
--
-- Utf8: utf8.c. The tree of ranges is a data type; utf8_build is `build`, with `none` for its two
--   ways to fail, the overlap of two ranges and the loop that stands still. On the table of the
--   source it returns. utf8_open and utf8_append are `open_utf8` and `append`. `encode`, in
--   Utf8.Decode, is the encoding of Unicode, an independent description.
--
-- Colour and Attributes: colour.c and attributes.c. Strings are lists of bytes without the NUL. The
--   distance of two colours is compared by its square, where the source takes the root of both.
--   `strtonum` is a parameter, of which one theorem uses that it reads decimal numbers.
--
-- KeyString: key-string.c, with the key codes of tmux.h as numbers.
--
-- Layout: layout.c. `struct layout_cell` is the type Cell, a tree: a leaf, or a node with a direction
--   and its children; the pointer to the parent is the place in the tree, so a function that goes up
--   from a cell is a function of the tree. Fits says that children fill their parent, with a line
--   between each two. The loop of layout_resize_adjust has fuel, one round for each unit of the change; a round
--   does at least one, so that is enough where the source ends at all, and the theorems say when.
--   Its recursion has the depth of the tree as fuel. layout_resize is `resize`, by its halves
--   `resize_along`, and layout_split_pane is `split_pane`, of the tree whose leaf holds the pane.
--   layout_close_pane is `close_pane`, with layout_destroy_cell as `remove_cell`; that of a parent with
--   one cell, where the source follows a null pointer, is `hangs`. The sizes of the panes themselves,
--   which layout_fix_panes crops to the window, are not modelled.
--
-- Paste: paste.c. The array of buffers is a list, the newest first. The loop of paste_add has fuel
--   for one round more than there are buffers; with a limit of 0 the source does not end, and the
--   model gives `none`. `strvisx` is a parameter.
--
-- Screen: screen.c and screen-write.c; an operation on
--   `struct screen_write_ctx` is a function of its screen, and what it sends to the terminals is left
--   out. Screen has `struct screen` and the selection, Screen.Resize screen_resize, Screen.Cursor the
--   cursor, the scroll region and the modes, Screen.Lines the operations on lines, Screen.Write
--   screen_write_cell, whose `none` is fatalx or a null pointer (also that of the copy of the line's last
--   cell in screen_write_initctx), and Screen.Text and Screen.Puts texts, the styles in them, and copies of screens; a text is what the format gives, and its length the
--   fuel of the loops over it, each round of which takes a byte at least. Proofs: Screen.Sound says when a
--   screen is in order (IsSound, with the room that is left for the history and the number of lines as
--   parameters) and each operation keeps it so; Grid.Sizes and Grid.View.Sizes are what it uses of the
--   grid. Screen.Column is about the column of the cursor.
--
-- Pane: the part of `struct window_pane` and `struct input_ctx` that the parser works on, and the
--   alternate screen of window.c. World holds what comes from elsewhere: strtonum, BUFSIZ, two options
--   of the window, the tree of utf8.c, and what is read where memory has no value.
--
-- Input: input.c. Input has the tables of the state machine row by row, Input.Parse the handlers and
--   the loop of input_parse (`parse_byte` is its body, `parse_bytes` the loop over the bytes of the
--   event buffer, `none` a fatalx or the null pointer of screen_write_cell), Input.Escape the control
--   characters and escape sequences, Input.Csi the control sequences, Input.Sgr their parameters and
--   the colours. bsearch in a table is a search for the entry. Proofs: Input.Sound and its modules follow a byte through tables,
--   handlers and change of state; Input.Sequence how a control sequence is collected, and
--   Input.Position one of them from its bytes to the cursor.
--
-- Winlink: the winlinks of window.c. The red-black tree of compat/tree.h, another project's, is its
--   elements in order, and a pointer to a winlink is its index, under which the tree keeps it. Order
--   says when indices ascend (From); Numbers is about the search of winlink_next_index, whose fuel is
--   one round more than there are winlinks, and Steps and Around about moving along the tree.
--
-- Session: session.c. A session is its winlinks, the current one and the stack of the last ones;
--   session_next, session_previous, session_select and session_last are `next_window`,
--   `previous_window`, `select` and `last_window`, and `unlink` is what session_detach does to the
--   session itself. Sound says when these pointers are sound (IsSound). Session.Group has
--   the counts of references to windows, where `none` is the use of a window that was destroyed or
--   the fatal error, the groups as lists of session numbers, and session_group_synchronize1;
--   Session.Server has the sessions of the server together, with session_attach, session_new (as
--   `new_window`, to which window_create is a parameter), session_detach and session_destroy. A server
--   is exact (IsExact) if its counts are those of the winlinks and sessions have sound pointers, a
--   current window and at most a given number of winlinks; it is in line (InSync) if no session is in
--   two groups or alone in one and the sessions of a group show the same windows at the same indices.
--
-- Memory management is not modelled: values are copied and dropped, and xmalloc does not fail. Not
-- modelled either are session_create and the names of sessions, the panes of a window other than in
-- its layout, options, the commands, the status line, the modes of windows, and what talks to
-- terminals, processes and clients.
pub mod Prelude
pub mod Utf8
pub mod Grid
pub mod Paste
pub mod Screen
pub mod Pane
pub mod Input
pub mod Attributes
pub mod Colour
pub mod KeyString
pub mod Layout
pub mod Winlink
pub mod Session
