-- ===== src/Servers.antt =====
-- console/src/components/servers: the table of the servers and its dialogs. A dialog is its state,
-- its handlers and the tree that it renders; the tree is that of the component's own JSX, with the
-- elements of components/ui as they stand.
pub mod Copyable
pub mod Create
pub mod Rotate
pub mod Delete
pub mod Table
